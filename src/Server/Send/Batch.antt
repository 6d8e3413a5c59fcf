-- ===== src/Server/Send/Batch.antt =====
-- Requests that are sent one after the other.
use galaxie.Prelude.{◌≡◌, refl, sym, ◌∙◌, List, [], ◌∷◌, ◌++◌}
use galaxie.Run.{Run, ok, ◌>>=◌, >>=_assoc, >>=_cong}
use galaxie.Server.{Server}
use galaxie.Server.Send.{Request, server_send}

abbrev pub send_all : {C : Type 0} → Server C → List (Request C) → Run (Server C)
send_all server [] = ok server
send_all server (r ∷ rs) = server_send server r >>= λ out. send_all out.0 rs

pub send_all-append :
    {C : Type 0} (server : Server C) (rs qs : List (Request C))
    → send_all server (rs ++ qs) ≡ (send_all server rs >>= λ server'. send_all server' qs)
send_all-append server [] qs = refl
send_all-append server (r ∷ rs) qs =
    >>=_cong (server_send server r) (λ out e. send_all-append out.0 rs qs)
    ∙ sym (>>=_assoc (server_send server r) _ _)
