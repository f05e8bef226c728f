-- ===== src/WaceApi.antt =====
-- waceapi/waceapi.go: the data that the host, the core and the plugins exchange.
use mod_sec_intl_wace_lib.Base.{Bool, List, Map, String, ℕ, ℤ}
use mod_sec_intl_wace_lib.ConfigStore.Defs.{Float64}

-- The bytes of a text of the traffic.
abbrev pub Bytes : Type 0
Bytes = List ℕ

-- A value of type `any`, by a number that names it: it is passed on and never looked into.
abbrev pub Any : Type 0
Any = ℕ

pub record HttpHeader : Type 0 where
  pub key : Bytes
  pub value : Bytes

pub record HttpPayload : Type 0 where
  pub uri : Bytes
  pub method : Bytes
  pub http_version : Bytes
  pub request_headers : List HttpHeader
  pub request_body : Bytes
  pub response_protocol : Bytes
  pub response_code : ℤ
  pub response_headers : List HttpHeader
  pub response_body : Bytes

pub record ModelInput : Type 0 where
  pub transaction_id : String
  pub payload : HttpPayload
  pub training : Bool

pub record ModelResults : Type 0 where
  pub prob_attack : Float64
  pub value : Any

pub record WafData : Type 0 where
  pub scores : Map Float64
  pub rules : List (ℤ × ℤ)

pub record DecisionInput : Type 0 where
  pub transaction_id : String
  pub results : Map ModelResults
  pub model_weight : Map Float64
  pub waf_weight : Float64
  pub waf_data : WafData
  pub training : Bool

pub record DecisionResult : Type 0 where
  pub block : Bool
  pub value : Any
