-- ===== src/Sip/Parser/Names.antt =====
-- The names of the methods in src/sip/sip.hpp against `requestToEnum` of src/sip/SipPacket.cpp.
use callx.Prelude.{
  ◌≡◌, ◌≢◌, ◌↔◌, refl, String, codes, if◌then◌else◌, bytes_equal, bytes_equal_iff, to_upper,
  Bool-cases, inl, inr, sym, ◌∙◌,
}
use callx.Sip.Parser.Message.{request_to_enum, upper}
use callx.Sip.Types.{RequestMethod}

-- `requestMethodEnumToString`
unfoldable pub method_name : RequestMethod → String
method_name RequestMethod.invite = "INVITE"
method_name RequestMethod.ack = "ACK"
method_name RequestMethod.bye = "BYE"
method_name RequestMethod.cancel = "CANCEL"
method_name RequestMethod.register = "REGISTER"
method_name RequestMethod.options = "OPTIONS"
method_name RequestMethod.info = "INFO"
method_name RequestMethod.undefined = "UNDEFINED"

abbrev IsNameOf : String → RequestMethod → Type 0
IsNameOf text m = m ≢ RequestMethod.undefined → upper text ≡ codes (method_name m)

IsNameOf-if :
    (text : String) (m rest : RequestMethod)
    → IsNameOf text rest
    → IsNameOf text (if bytes_equal (upper text) (codes (method_name m)) then m else rest)
IsNameOf-if text m rest h = elim (Bool-cases (bytes_equal (upper text) (codes (method_name m)))) [
  | inl e ↦ rw e (λ n. (bytes_equal_iff (upper text) (codes (method_name m))).0 e)
  | inr e ↦ rw e h
]

request_to_enum-IsNameOf : (text : String) → IsNameOf text (request_to_enum text)
unfolding request_to_enum method_name
request_to_enum-IsNameOf text =
    let is = IsNameOf-if text in
    is RequestMethod.invite _ (
      is RequestMethod.ack _ (
        is RequestMethod.bye _ (
          is RequestMethod.cancel _ (
            is RequestMethod.register _ (
              is RequestMethod.options _
                (is RequestMethod.info RequestMethod.undefined (λ n. absurd (n refl))))))))

request_to_enum-upper :
    (text : String) (m : RequestMethod)
    → upper text ≡ codes (method_name m)
    → request_to_enum text ≡ m
unfolding request_to_enum method_name
request_to_enum-upper text RequestMethod.invite h = rw h refl
request_to_enum-upper text RequestMethod.ack h = rw h refl
request_to_enum-upper text RequestMethod.bye h = rw h refl
request_to_enum-upper text RequestMethod.cancel h = rw h refl
request_to_enum-upper text RequestMethod.register h = rw h refl
request_to_enum-upper text RequestMethod.options h = rw h refl
request_to_enum-upper text RequestMethod.info h = rw h refl
request_to_enum-upper text RequestMethod.undefined h = rw h refl

-- A text is read as one of the seven methods exactly when it is the method's name in some mixture of
-- cases.
request_to_enum_iff :
    (text : String) (m : RequestMethod)
    → m ≢ RequestMethod.undefined
    → (request_to_enum text ≡ m) ↔ (upper text ≡ codes (method_name m))
request_to_enum_iff text m n = (
  λ h. rw (← h) (request_to_enum-IsNameOf text (λ e. n (sym h ∙ e))),
  request_to_enum-upper text m,
)

-- Each method's name is read back as the method.
pub request_to_enum-method_name : (m : RequestMethod) → request_to_enum (method_name m) ≡ m
unfolding request_to_enum method_name to_upper
request_to_enum-method_name RequestMethod.invite = refl
request_to_enum-method_name RequestMethod.ack = refl
request_to_enum-method_name RequestMethod.bye = refl
request_to_enum-method_name RequestMethod.cancel = refl
request_to_enum-method_name RequestMethod.register = refl
request_to_enum-method_name RequestMethod.options = refl
request_to_enum-method_name RequestMethod.info = refl
request_to_enum-method_name RequestMethod.undefined = refl
