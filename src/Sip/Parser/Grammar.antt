-- ===== src/Sip/Parser/Grammar.antt =====
-- What src/sip/SipPacket.cpp takes from other libraries: the matches of its boost::regex patterns and
-- `boost::asio::ip::address::from_string`. A field that is an Option is `none` where nothing matches.
use callx.Prelude.{Option, List, String, Bytes}
use callx.Sip.Types.{SipFromTo}

pub record Grammar (A : Type 0) : Type 0 where
  -- the pieces between the matches of `sipLineDelim`
  pub split_lines : String → List String
  -- `sipRequest`: the method and the URI
  pub request : String → Option (String × String)
  -- `sipResponse`: the status code and the reason
  pub response : String → Option (String × String)
  -- `sipFieldAndValue` and `sdpFieldAndValue`: the name and the value
  pub sip_field : String → Option (String × String)
  pub sdp_field : String → Option (String × String)
  -- `fromAndToRegex`: what its groups 7, 4 and 2 hold after the match, of which the code does not ask
  -- whether it succeeded
  pub from_and_to : String → SipFromTo
  -- `cSeqRegex`: the number and the method
  pub cseq : String → Option (String × String)
  -- `branchRegex`: the protocol, the sender and the branch; empty where a group took no part
  pub via : String → Option (String × String × String)
  -- `portRegex`: the port
  pub media : String → Option String
  -- `from_string`, which throws where the text is no address
  pub from_string : Bytes → Option A
  -- the address that a `SocketAddress` has when it is made
  pub no_address : A
