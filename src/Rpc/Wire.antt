-- ===== src/Rpc/Wire.antt =====
-- pkg/codec/codec.go, which encodes the messages as JSON, and what gRPC offers the stubs of gen/go.
use bidflock.Prelude.{Option, List, String}
use bidflock.Prelude.State.{Act}
use bidflock.Models.Messages.{
  CheckBudgetRequest, CheckBudgetResponse, DeductBudgetRequest, DeductBudgetResponse, PacingRequest,
  PacingResponse, ScoreRequest, ScoreResponse,
}

-- `json.Marshal` and `json.Unmarshal` for one type of message.
pub record Codec (Data A : Type 0) : Type 0 where
  pub marshal : A → Option Data
  pub unmarshal : Data → Option A

-- encoding/json for the messages.
pub record Json (F Data : Type 0) : Type 0 where
  pub check_request : Codec Data (CheckBudgetRequest F)
  pub check_response : Codec Data (CheckBudgetResponse F)
  pub deduct_request : Codec Data (DeductBudgetRequest F)
  pub deduct_response : Codec Data (DeductBudgetResponse F)
  pub pacing_request : Codec Data PacingRequest
  pub pacing_response : Codec Data (PacingResponse F)
  pub score_request : Codec Data ScoreRequest
  pub score_response : Codec Data (ScoreResponse F)

-- What a handler returns as an `interface{}`.
pub data Reply (F : Type 0) : Type 0 where
  check_reply : CheckBudgetResponse F → Reply F
  deduct_reply : DeductBudgetResponse F → Reply F
  pacing_reply : PacingResponse F → Reply F
  score_reply : ScoreResponse F → Reply F

-- `JSON.Marshal` of the codec, which gRPC calls on the reply.
unfoldable pub encode : {F Data : Type 0} → Json F Data → Reply F → Option Data
encode json (check_reply r) = json.check_response.marshal r
encode json (deduct_reply r) = json.deduct_response.marshal r
encode json (pacing_reply r) = json.pacing_response.marshal r
encode json (score_reply r) = json.score_response.marshal r

-- A `grpc.MethodDesc`, whose handler gets the encoded request, and a `grpc.ServiceDesc`.
pub record MethodDesc (F Data W : Type 0) : Type 0 where
  pub method_name : String
  pub handler : Json F Data → Data → Act W (Option (Reply F))

pub record ServiceDesc (F Data W : Type 0) : Type 0 where
  pub service_name : String
  pub methods : List (MethodDesc F Data W)

-- A `grpc.ClientConnInterface`: `Invoke` with the codecs of the request and of the reply, the full
-- name of a method and the request. `none` is an error.
pub record Conn (Data W : Type 0) : Type 1 where
  pub invoke : {A B : Type 0} → Codec Data A → Codec Data B → String → A → Act W (Option B)
