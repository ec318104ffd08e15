-- ===== src/ProcessList.antt =====
-- Lab2/Lab2_Dil.cpp: the names of all processes. The functions of libPidUtil.a, which has no source here, are parameters.
use unx.Prelude.{ℕ, suc, List, [], ◌∷◌, ◌++◌, ◌≡◌, refl, ap, length}
use unx.Prelude.Bytes.{Bytes}

-- Lab2/pidUtil.h.
pub data ErrStatus : Type 0 where
  err_ok err_dir_open err_no_pid err_no_name : ErrStatus

pub data Line : Type 0 where
  process : ℕ → Bytes → Line
  error error_getting_pids : Bytes → Line

module _ (get_name_by_pid : ℕ → ErrStatus × Bytes) (get_error_msg : ErrStatus → Bytes) where
  -- The lines of the body of the loop, for what the call gives.
  unfoldable named : ℕ → ErrStatus × Bytes → Line
  named pid (err_ok, name) = process pid name
  named pid (err, name) = error (get_error_msg err)

  unfoldable listed : List ℕ → List Line
  unfolding named
  listed [] = []
  listed (pid ∷ pids) = let rest = listed pids in named pid (get_name_by_pid pid) ∷ rest

  -- `main`, for what `GetAllPids` gives.
  unfoldable main : ErrStatus × List ℕ → List Line
  unfolding listed
  main (err_ok, pids) = listed pids
  main (err, pids) = error_getting_pids (get_error_msg err) ∷ []

  listed-append : (ps qs : List ℕ) → listed (ps ++ qs) ≡ listed ps ++ listed qs
  unfolding listed
  listed-append [] qs = refl
  listed-append (p ∷ ps) qs = ap (λ ls. named p (get_name_by_pid p) ∷ ls) (listed-append ps qs)

  -- A process that is gone before its name is asked for takes no other one's line.
  main-length : (pids : List ℕ) → length (main (err_ok, pids)) ≡ length pids
  unfolding main listed
  main-length [] = refl
  main-length (p ∷ pids) = ap suc (main-length pids)
