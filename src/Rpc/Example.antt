-- ===== src/Rpc/Example.antt =====
-- The budget service of the example behind its stubs, with messages that encode to themselves.
use bidflock.Prelude.{◌≡◌, refl, sym, ap, ◌∙◌, Option, some, none, String, str_eq, if◌then◌else◌}
use bidflock.Prelude.State.{Act}
use bidflock.Prelude.Fixed.{Fixed, fixed_float}
use bidflock.Models.Messages.{
  CheckBudgetRequest, CheckBudgetResponse, DeductBudgetRequest, DeductBudgetResponse, PacingRequest,
  PacingResponse, ScoreRequest, ScoreResponse,
}
use bidflock.Budget.Example.{Tables, server}
use bidflock.Budget.Server.{serve_check, serve_deduct, serve_pacing}
use bidflock.Rpc.Wire.{Codec, Json, MethodDesc, Conn, encode}
use bidflock.Rpc.Stubs.{
  BudgetService, budget_service_desc, check_budget_handler, deduct_budget_handler,
  get_pacing_info_handler,
}
use bidflock.Rpc.Calls.{run_handler, and_then, Connects, IsFaithful}

pub data Bytes : Type 0 where
  a : CheckBudgetRequest Fixed → Bytes
  b : CheckBudgetResponse Fixed → Bytes
  c : DeductBudgetRequest Fixed → Bytes
  d : DeductBudgetResponse Fixed → Bytes
  e : PacingRequest → Bytes
  f : PacingResponse Fixed → Bytes
  g : ScoreRequest → Bytes
  h : ScoreResponse Fixed → Bytes

abbrev pub json : Json Fixed Bytes
json = record {
  check_request = record {
    marshal = λ x. some (a x);
    unmarshal = λ m. elim m [ a x ↦ some x | _ ↦ none ];
  };
  check_response = record {
    marshal = λ x. some (b x);
    unmarshal = λ m. elim m [ b x ↦ some x | _ ↦ none ];
  };
  deduct_request = record {
    marshal = λ x. some (c x);
    unmarshal = λ m. elim m [ c x ↦ some x | _ ↦ none ];
  };
  deduct_response = record {
    marshal = λ x. some (d x);
    unmarshal = λ m. elim m [ d x ↦ some x | _ ↦ none ];
  };
  pacing_request = record {
    marshal = λ x. some (e x);
    unmarshal = λ m. elim m [ e x ↦ some x | _ ↦ none ];
  };
  pacing_response = record {
    marshal = λ x. some (f x);
    unmarshal = λ m. elim m [ f x ↦ some x | _ ↦ none ];
  };
  score_request = record {
    marshal = λ x. some (g x);
    unmarshal = λ m. elim m [ g x ↦ some x | _ ↦ none ];
  };
  score_response = record {
    marshal = λ x. some (h x);
    unmarshal = λ m. elim m [ h x ↦ some x | _ ↦ none ];
  };
}

abbrev pub service : BudgetService Fixed Tables
service = record {
  check_budget = serve_check server 5;
  deduct_budget = λ req w. let r = serve_deduct server req w in (some r.0, r.1);
  get_pacing_info = serve_pacing server 5;
}

-- The handler that is registered under a full name.
abbrev pub registered : String → MethodDesc Fixed Bytes Tables
registered name =
    if str_eq name "/budget.BudgetService/CheckBudget"
    then record { method_name = "CheckBudget"; handler = check_budget_handler service }
    else if str_eq name "/budget.BudgetService/DeductBudget"
    then record { method_name = "DeductBudget"; handler = deduct_budget_handler service }
    else record { method_name = "GetPacingInfo"; handler = get_pacing_info_handler service }

abbrev pub call_over :
    {A B : Type 0} → Codec Bytes A → Codec Bytes B → String → A → Act Tables (Option B)
call_over ca cb name x w =
    let ran = run_handler json (registered name) (ca.marshal x) w in
    (and_then cb.unmarshal (and_then (encode json) ran.0), ran.1)

abbrev pub conn : Conn Bytes Tables
conn = record { invoke = call_over }

pub connected : Connects json conn (budget_service_desc service)
unfolding budget_service_desc
connected = (λ A B ca cb x w. refl, (λ A B ca cb x w. refl, (λ A B ca cb x w. refl, tt)))

pub encodes :
    {A : Type 0} (make : A → Bytes) (read : Bytes → Option A)
    → ((x : A) → read (make x) ≡ some x)
    → IsFaithful (record { marshal = λ x. some (make x); unmarshal = read })
encodes make read back x bytes same_bytes =
    let same : make x ≡ bytes = cc same_bytes in ap read (sym same) ∙ back x
