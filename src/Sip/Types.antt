-- ===== src/Sip/Types.antt =====
-- src/sip/sip.hpp, `SipFromTo` of src/main/CallxTypes.hpp, and what src/sip/SipPacket.hpp hands out
-- of a parsed message.
use callx.Network.SocketAddress.{SocketAddress}
use callx.Prelude.{
  ℕ, ◌≡◌, ◌↔◌, Bool, true, ◌&&◌, ◌||◌, arith, Key, same, before, same_iff, ltb, leb, ◌==◌, String,
  if◌then◌else◌, string_key,
}

pub data MessageType : Type 0 where
  request response malformed : MessageType

pub data RequestMethod : Type 0 where
  invite ack bye cancel register options info undefined : RequestMethod

pub data ResponseCategory : Type 0 where
  provisional success redirection client_error server_error global_failure nonvalid :
      ResponseCategory

pub data TransactionPhase : Type 0 where
  calling proceeding trying completed confirmed terminated : TransactionPhase

pub data DialogState : Type 0 where
  undefined init early confirmed terminating : DialogState

-- The enumerators' numbers, by which the code compares them.
abbrev pub method_code : RequestMethod → ℕ
method_code RequestMethod.invite = 0
method_code RequestMethod.ack = 1
method_code RequestMethod.bye = 2
method_code RequestMethod.cancel = 3
method_code RequestMethod.register = 4
method_code RequestMethod.options = 5
method_code RequestMethod.info = 6
method_code RequestMethod.undefined = 7

abbrev pub phase_code : TransactionPhase → ℕ
phase_code TransactionPhase.calling = 0
phase_code TransactionPhase.proceeding = 1
phase_code TransactionPhase.trying = 2
phase_code TransactionPhase.completed = 3
phase_code TransactionPhase.confirmed = 4
phase_code TransactionPhase.terminated = 5

abbrev pub is_method : RequestMethod → RequestMethod → Bool
is_method a b = method_code a == method_code b

-- The client's and the server's phase, `TransactionState`.
pub record TransactionState : Type 0 where
  pub client : TransactionPhase
  pub server : TransactionPhase

abbrev pub states : TransactionPhase → TransactionPhase → TransactionState
states c s = record { client = c; server = s }

abbrev pub is_state : TransactionState → TransactionState → Bool
is_state a b =
    phase_code a.client == phase_code b.client && phase_code a.server == phase_code b.server

-- The branch and the method of the CSeq field.
pub record TransactionId : Type 0 where
  pub branch : String
  pub method : RequestMethod

unfoldable pub id_equal : TransactionId → TransactionId → Bool
id_equal a b = same a.branch b.branch && is_method a.method b.method

unfoldable pub id_less : TransactionId → TransactionId → Bool
id_less a b =
    before a.branch b.branch
    || (same a.branch b.branch && ltb (method_code a.method) (method_code b.method))

method_code_injective : (a b : RequestMethod) → (is_method a b ≡ true) ↔ (a ≡ b)
method_code_injective a b = ground arith

pub id_equal_iff : (a b : TransactionId) → (id_equal a b ≡ true) ↔ (a ≡ b)
unfolding id_equal
id_equal_iff a b = (
  λ h. ground (arith, same_iff a.branch b.branch, method_code_injective a.method b.method),
  λ h. ground (arith, same_iff a.branch b.branch, method_code_injective a.method b.method),
)

instance abbrev pub id_key : Key TransactionId
id_key = record { beq = id_equal; less = id_less; beq_iff = id_equal_iff }

pub record SipFromTo : Type 0 where
  pub tag : String
  pub address : String
  pub displayname : String

-- The getters of a parsed `SipPacket`.
pub record SipPacket (A : Type 0) : Type 0 where
  pub message_type : MessageType
  pub request_method : RequestMethod
  pub response_code : ℕ
  pub response_reason : String
  pub call_id : String
  pub from : SipFromTo
  pub to : SipFromTo
  pub cseq_method : RequestMethod
  pub cseq_num : ℕ
  pub branch : String
  pub sent_by : String
  pub has_sdp_payload : Bool
  pub sdp_media_socket : SocketAddress A

-- `getResponseCategory`
unfoldable pub response_category : ℕ → ResponseCategory
response_category n =
    if leb 100 n && leb n 199
    then ResponseCategory.provisional
    else if leb 200 n && leb n 299
    then ResponseCategory.success
    else if leb 300 n && leb n 399
    then ResponseCategory.redirection
    else if leb 400 n && leb n 499
    then ResponseCategory.client_error
    else if leb 500 n && leb n 599
    then ResponseCategory.server_error
    else if leb 600 n && leb n 699
    then ResponseCategory.global_failure
    else ResponseCategory.nonvalid
