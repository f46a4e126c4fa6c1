-- ===== src/System/Example.antt =====
-- A consumer with a script of fetches.
use bidflock.Prelude.{◌≡◌, refl, true, false, List, [], ◌∷◌, ◌++◌, ℕ, length, inl}
use bidflock.Prelude.Fixed.{Fixed, fixed_float}
use bidflock.Bidding.Example.{sets}
use bidflock.Clients.Consumer.{Client, Fetches}
use bidflock.Clients.Delivered.{IsGroup}
use bidflock.System.CaughtUp.{Value, Host, sync_handler}

-- The bidding service's consumer: what its polls will answer, and what has become of the records.
pub record Consumer : Type 0 where
  pub script : List (Fetches (Value Fixed))
  pub given : List (Value Fixed)
  pub seen : List (Value Fixed)
  pub through : ℕ
  pub set : sets.Db

abbrev next : List (Fetches (Value Fixed)) → Fetches (Value Fixed)
next [] = record { errors = []; records = [] }
next (f ∷ fs) = f

abbrev later : List (Fetches (Value Fixed)) → List (Fetches (Value Fixed))
later [] = []
later (f ∷ fs) = fs

abbrev pub client : Client (Value Fixed) Consumer
client = record {
  poll = λ w.
      let f = next w.script in
      (f, record w { script = later w.script; given = w.given ++ f.records });
  is_done = λ w. false;
  commit = λ w. (true, record w { through = length w.given });
}

abbrev pub host : Host sets client
host = record {
  view = λ w. w.set;
  store = λ r d w. record w { seen = w.seen ++ (r ∷ []); set = d };
  view_store = λ r d w. refl;
  poll_view = λ w. refl;
  commit_view = λ w. refl;
}

pub sync_seen :
    (r : Value Fixed) (w : Consumer)
    → (sync_handler sets client host r w).1.seen ≡ w.seen ++ (r ∷ [])
unfolding sync_handler
sync_seen r w = refl

pub sync_given :
    (r : Value Fixed) (w : Consumer) → (sync_handler sets client host r w).1.given ≡ w.given
unfolding sync_handler
sync_given r w = refl

pub sync_through :
    (r : Value Fixed) (w : Consumer) → (sync_handler sets client host r w).1.through ≡ w.through
unfolding sync_handler
sync_through r w = refl

abbrev pub group : IsGroup client (sync_handler sets client host)
group = record {
  delivered = λ w. w.given;
  handled = λ w. w.seen;
  committed = λ w. w.through;
  poll_delivered = λ w. refl;
  poll_handled = λ w. refl;
  poll_committed = λ w. refl;
  handler_delivered = sync_given;
  handler_handled = sync_seen;
  handler_committed = sync_through;
  commit_delivered = λ w. refl;
  commit_handled = λ w. refl;
  commit_committed = λ w. inl (refl, refl);
}

abbrev pub consumer : List (Value Fixed) → Consumer
consumer rs = record {
  script = record { errors = []; records = rs } ∷ [];
  given = [];
  seen = [];
  through = 0;
  set = λ _ _. false;
}
