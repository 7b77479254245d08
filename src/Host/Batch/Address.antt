-- ===== src/Host/Batch/Address.antt =====
-- The address of a client, and the slashes at its end.
use jolt_ncp.Base.{ℕ, zero, suc, ◌≡◌, refl, List, [], ◌∷◌, ◌++◌, replicate, Outcome}
use jolt_ncp.Host.Text.{Text}
use jolt_ncp.Host.Batch.{trim_slashes, Network, new}

trim_slashes-replicate : (n : ℕ) → trim_slashes (replicate n b'/') ≡ []
unfolding trim_slashes
trim_slashes-replicate zero = refl
trim_slashes-replicate (suc n) = rw (trim_slashes-replicate n) refl

trim_slashes-append :
    (url : List ℕ) (n : ℕ) → trim_slashes (url ++ replicate n b'/') ≡ trim_slashes url
unfolding trim_slashes
trim_slashes-append [] n = trim_slashes-replicate n
trim_slashes-append (c ∷ cs) n = rw (trim_slashes-append cs n) refl

-- Slashes at the end of the address given to `new` do not change the client or the error.
pub new-trailing_slashes :
    {V : Type 0} (build : ℕ → Outcome Text (Network V)) (url : List ℕ) (n timeout : ℕ)
    → new build (url ++ replicate n b'/') timeout ≡ new build url timeout
unfolding new
new-trailing_slashes build url n timeout = rw (trim_slashes-append url n) refl
