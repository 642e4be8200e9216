-- ===== src/Console/Server.antt =====
-- src/console/TcpServer.cpp: the sessions that the server starts. The sockets, which the Boost library
-- drives, are left out.
use callx.Console.Session.{Session, new_session}
use callx.Prelude.{
  ℕ, ◌+◌, ◌≡◌, refl, ap, ◌∙◌, Bool, true, false, List, [], ◌∷◌, ◌++◌, length, length-append, arith,
  if◌then◌else◌,
}

-- The sessions, the latest last, and whether the server waits for one more.
pub record TcpServer : Type 0 where
  pub sessions : List Session
  pub accepting : Bool

-- The constructor.
unfoldable pub new_server : TcpServer
new_server = record { sessions = []; accepting = true }

-- `handle_accept`, by whether there is an error, in which case nothing more is waited for.
unfoldable pub handle_accept : Bool → TcpServer → TcpServer
handle_accept true v = record v { accepting = false }
handle_accept false v = record v { sessions = v.sessions ++ new_session ∷ [] }

-- What the clients bring, one after the other; no handler is called while nothing is waited for.
unfoldable pub handle_accepts : List Bool → TcpServer → TcpServer
handle_accepts [] v = v
handle_accepts (error ∷ rest) v =
    handle_accepts rest (if v.accepting then handle_accept error v else v)

-- The connections before the first error.
abbrev pub before_error : List Bool → ℕ
before_error [] = 0
before_error (true ∷ rest) = 0
before_error (false ∷ rest) = before_error rest + 1

refuses : (errors : List Bool) (v : TcpServer) → v.accepting ≡ false → handle_accepts errors v ≡ v
unfolding handle_accepts
refuses [] v h = refl
refuses (e ∷ rest) v h = simp (h, refuses rest v h)

started :
    (errors : List Bool) (xs : List Session)
    → length (handle_accepts errors (record { sessions = xs; accepting = true })).sessions
      ≡ length xs + before_error errors
unfolding handle_accepts handle_accept
started [] xs = omega arith
started (true ∷ rest) xs =
    ap (λ v. length v.sessions) (refuses rest (record { sessions = xs; accepting = false }) refl)
    ∙ omega arith
started (false ∷ rest) xs =
    omega (arith, started rest (xs ++ new_session ∷ []), length-append xs (new_session ∷ []))

-- The server starts a session for each connection before the first error, and for none after it.
length-handle_accepts :
    (errors : List Bool) → length (handle_accepts errors new_server).sessions ≡ before_error errors
unfolding new_server
length-handle_accepts errors = omega (arith, started errors [])
