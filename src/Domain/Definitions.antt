-- ===== src/Domain/Definitions.antt =====
-- internal/core/domain/test.go, trigger.go and receiver.go: test definitions as the YAML gives
-- them. A `nil` body is `none`. A number of a body is kept as the text that `%v` prints.
use e2e_framework.Prelude.{Text, lit, Dict, ℤ, ◌==◌, if◌then◌else◌, Option, Bool, List}

abbrev pub Duration : Type 0
Duration = ℤ

abbrev pub Vars : Type 0
Vars = Dict Text

-- The values of a `map[string]any`. `dynamic` is a `map[any]any`.
mutual
  pub data Value : Type 0 where
    null : Value
    boolean : Bool → Value
    number : Text → Value
    string : Text → Value
    array : Items → Value
    object : Fields → Value
    dynamic : Entries → Value

  pub data Items : Type 0 where
    nil : Items
    item : Value → Items → Items

  pub data Fields : Type 0 where
    end : Fields
    field : Text → Value → Fields → Fields

  pub data Entries : Type 0 where
    done : Entries
    entry : Value → Value → Entries → Entries

pub record AssertionConfig : Type 0 where
  pub type : Text
  pub field : Text
  pub value : Text

pub record RetryConfig : Type 0 where
  pub enabled : Bool
  pub attempts : ℤ
  pub delay : Duration

pub record ReceiverConfig : Type 0 where
  pub type : Text
  pub timeout : Duration
  pub recipient : Text
  pub options : Vars
  pub assertions : List AssertionConfig
  pub interval : Duration
  pub method : Text
  pub url : Text
  pub headers : Vars
  pub body : Option Fields
  pub expected_status : ℤ
  pub response_asserts : List AssertionConfig
  pub extract : Vars

pub record TriggerConfig : Type 0 where
  pub type : Text
  pub options : Vars
  pub method : Text
  pub url : Text
  pub timeout : Duration
  pub delay_before : Duration
  pub headers : Vars
  pub body : Option Fields
  pub extract : Vars
  pub expected_status : ℤ
  pub response_assertions : List AssertionConfig
  pub receivers : List ReceiverConfig
  pub wait_for_receivers : Bool

abbrev pub http_trigger_type : Text
http_trigger_type = lit "http"

abbrev pub webhook_receiver_type : Text
webhook_receiver_type = lit "webhook"

abbrev pub imap_receiver_type : Text
imap_receiver_type = lit "imap"

abbrev pub api_receiver_type : Text
api_receiver_type = lit "api"

-- `EffectiveType`: HTTP when the step declares none.
unfoldable pub effective_type : TriggerConfig → Text
effective_type t = if t.type == lit "" then http_trigger_type else t.type

pub record CallAction : Type 0 where
  pub method : Text
  pub url : Text
  pub timeout : Duration
  pub delay_before : Duration
  pub headers : Vars
  pub body : Option Fields
  pub expected_status : ℤ

pub record OnFailureConfig : Type 0 where
  pub calls : List CallAction

pub record TestDefinition : Type 0 where
  pub version : Text
  pub id : Text
  pub schedule : Text
  pub enabled : Bool
  pub async : Bool
  pub retry : RetryConfig
  pub variables : Vars
  pub triggers : List TriggerConfig
  pub on_failure : OnFailureConfig
