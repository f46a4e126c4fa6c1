-- ===== src/Rpc/Calls.antt =====
-- A call of the stubs of gen/go as gRPC runs it, delivered or lost.
use bidflock.Prelude.{◌≡◌, refl, ap, ◌∙◌, ◌⊎◌, inl, inr, Option, none, some, All, String}
use bidflock.Prelude.Text.{concat}
use bidflock.Prelude.State.{Act}
use bidflock.Rpc.Wire.{Codec, Json, Reply, MethodDesc, ServiceDesc, Conn, encode}
use bidflock.Rpc.Stubs.{handle, as_reply}

abbrev pub and_then : {A B : Type 0} → (A → Option B) → Option A → Option B
and_then k none = none
and_then k (some a) = k a

module _ {F Data W : Type 0} (json : Json F Data) where
  abbrev pub run_handler : MethodDesc F Data W → Option Data → Act W (Option (Reply F))
  run_handler md none w = (none, w)
  run_handler md (some bytes) w = md.handler json bytes w

  -- What gRPC does for a call: it encodes the request, runs the handler that the service has
  -- registered under the full name, and encodes and decodes the reply.
  abbrev pub Reaches : Conn Data W → ServiceDesc F Data W → MethodDesc F Data W → Type 1
  Reaches conn desc md =
      (A B : Type 0) (a : Codec Data A) (b : Codec Data B) (x : A) (w : W)
      → let ran = run_handler md (a.marshal x) w in
        conn.invoke a b (concat "/" (concat desc.service_name (concat "/" md.method_name))) x w
        ≡ (and_then b.unmarshal (and_then (encode json) ran.0), ran.1)

  abbrev pub Connects : Conn Data W → ServiceDesc F Data W → Type 1
  Connects conn desc = All (λ md. Reaches conn desc md) desc.methods

-- The value survives its encoding.
abbrev pub Carries : {Data A : Type 0} → Codec Data A → A → Type 0
Carries c a = and_then c.unmarshal (c.marshal a) ≡ some a

-- What encodes decodes to itself; a number that JSON cannot express does not encode.
abbrev pub IsFaithful : {Data A : Type 0} → Codec Data A → Type 0
IsFaithful {Data = Data} {A = A} c =
    (x : A) (d : Data) → c.marshal x ≡ some d → c.unmarshal d ≡ some x

-- A call that the server does not get, one whose answer is lost, and one that is answered.
abbrev pub IsCall : {A W : Type 0} → W → Option A × W → Option A × W → Type 0
IsCall w served out = (out ≡ (none, w)) ⊎ ((out ≡ (none, served.1)) ⊎ (out ≡ served))

pub IsCall-trans :
    {A W : Type 0} (w : W) (s c o : Option A × W) → IsCall w s c → IsCall w c o → IsCall w s o
IsCall-trans w s c o first (inl e) = inl e
IsCall-trans w s c o (inl k) (inr (inl e)) = inl (e ∙ ap (λ r. (none, r.1)) k)
IsCall-trans w s c o (inr (inl k)) (inr (inl e)) = inr (inl (e ∙ ap (λ r. (none, r.1)) k))
IsCall-trans w s c o (inr (inr k)) (inr (inl e)) = inr (inl (e ∙ ap (λ r. (none, r.1)) k))
IsCall-trans w s c o (inl k) (inr (inr e)) = inl (e ∙ k)
IsCall-trans w s c o (inr (inl k)) (inr (inr e)) = inr (inl (e ∙ k))
IsCall-trans w s c o (inr (inr k)) (inr (inr e)) = inr (inr (e ∙ k))

none-some : {A : Type 0} {a : A} → none ≡ some a → ⊥
none-some e = absurd (cc)

module _ {F Data W A B : Type 0} (json : Json F Data) (a : Json F Data → Codec Data A)
    (b : Codec Data B) (wrap : B → Reply F) (serve : A → Act W (Option B)) where
  abbrev pub method : String → MethodDesc F Data W
  method name = record {
    method_name = name;
    handler = λ j bytes. handle wrap serve ((a j).unmarshal bytes);
  }

  handled :
      (name : String) (x : A) (w : W) (o : Option Data)
      → and_then (a json).unmarshal o ≡ some x
      → run_handler json (method name) o w ≡ handle wrap serve (some x) w
  handled name x w none e = absurd (none-some e)
  handled name x w (some bytes) e = ap (λ o. handle wrap serve o w) e

  returned :
      ((y : B) → encode json (wrap y) ≡ b.marshal y)
      → (o : Option B) → ((y : B) → o ≡ some y → Carries b y)
      → and_then b.unmarshal (and_then (encode json) (as_reply wrap o)) ≡ o
  returned same none carried = refl
  returned same (some y) carried = ap (λ d. and_then b.unmarshal d) (same y) ∙ carried y refl

  pub delivered :
      (conn : Conn Data W) (desc : ServiceDesc F Data W) (name : String) (x : A) (w : W)
      → Reaches json conn desc (method name)
      → ((y : B) → encode json (wrap y) ≡ b.marshal y)
      → Carries (a json) x
      → ((y : B) → (serve x w).0 ≡ some y → Carries b y)
      → conn.invoke (a json) b (concat "/" (concat desc.service_name (concat "/" name))) x w
        ≡ serve x w
  delivered conn desc name x w reaches same sent carried =
      reaches A B (a json) b x w
      ∙ ap (λ r. (and_then b.unmarshal (and_then (encode json) r.0), r.1)) (handled name x w _ sent)
      ∙ ap (λ o. (o, (serve x w).1)) (returned same (serve x w).0 carried)

  -- With faithful codecs, a call that is not delivered has no answer.
  pub delivered-IsCall :
      (conn : Conn Data W) (desc : ServiceDesc F Data W) (name : String) (x : A) (w : W)
      → Reaches json conn desc (method name)
      → ((y : B) → encode json (wrap y) ≡ b.marshal y)
      → IsFaithful (a json)
      → IsFaithful b
      → IsCall w
          (serve x w)
          (conn.invoke (a json) b (concat "/" (concat desc.service_name (concat "/" name))) x w)
  delivered-IsCall conn desc name x w reaches same requests replies = sent ((a json).marshal x) refl
    where
      Out : Type 0
      Out = Option B × W

      back : Option (Reply F) × W → Out
      back r = (and_then b.unmarshal (and_then (encode json) r.0), r.1)

      called : Out
      called = conn.invoke (a json) b (concat "/" (concat desc.service_name (concat "/" name))) x w

      decoded :
          (y : B) (o : Option Data)
          → b.marshal y ≡ o
          → (and_then b.unmarshal o ≡ none) ⊎ (and_then b.unmarshal o ≡ some y)
      decoded y none e = inl refl
      decoded y (some d) e = inr (replies y d e)

      answered : (r : Out) → called ≡ back (as_reply wrap r.0, r.1) → IsCall w r called
      answered (none, v) e = inr (inl e)
      answered (some y, v) e = elim (decoded y (b.marshal y) refl) [
        | inl lost ↦
            inr (inl (e ∙ ap (λ o. (and_then b.unmarshal o, v)) (same y) ∙ ap (λ o. (o, v)) lost))
        | inr got ↦
            inr (inr (e ∙ ap (λ o. (and_then b.unmarshal o, v)) (same y) ∙ ap (λ o. (o, v)) got))
      ]

      sent : (o : Option Data) → (a json).marshal x ≡ o → IsCall w (serve x w) called
      sent none e =
          inl (reaches A B (a json) b x w ∙ ap (λ o. back (run_handler json (method name) o w)) e)
      sent (some d) e = answered (serve x w) (
          reaches A B (a json) b x w
          ∙ ap (λ o. back (run_handler json (method name) o w)) e
          ∙ ap (λ o. back (handle wrap serve o w)) (requests x d e))
