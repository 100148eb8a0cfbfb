-- ===== src/RequestBodies/Tests.antt =====
-- Limits on which the theorems about bodies are applied.
use nehemiah.Base.{ℕ, ◌≡◌, ◌↔◌, refl, [], ◌∷◌, some, ok, err, if◌then◌else◌, ltb, length}
use nehemiah.RequestBodies.{
  PendingBodies, make_admission, request_too_large, collect, validate_declared_body_length,
}
use nehemiah.RequestBodies.Accounting.{IsAccounted, arrives, releases, run, run-IsAccounted}
use nehemiah.RequestBodies.Lengths.{
  joined, collect_lem, IsAccepted, validate_declared_body_length-IsAccepted,
}

abbrev admission : PendingBodies
admission = record {
  maximum_total = 3;
  maximum_per_client = 2;
  by_client = [];
  total = 0;
  leases = [];
}

made_run : make_admission 3 2 ≡ some admission
unfolding make_admission
made_run = refl

run-IsAccounted_example : IsAccounted (
    run
      (arrives "a" ∷ arrives "a" ∷ arrives "a" ∷ arrives "b" ∷ releases 0 ∷ releases 0 ∷ [])
      admission)
run-IsAccounted_example =
    run-IsAccounted 3 2 admission
      (arrives "a" ∷ arrives "a" ∷ arrives "a" ∷ arrives "b" ∷ releases 0 ∷ releases 0 ∷ [])
      made_run

collect_lem_example : collect {A = ℕ} 4 0 [] ((1 ∷ 2 ∷ []) ∷ (3 ∷ []) ∷ []) ≡ (
    if ltb 4 (length (joined {A = ℕ} ((1 ∷ 2 ∷ []) ∷ (3 ∷ []) ∷ [])))
    then err request_too_large
    else ok (joined {A = ℕ} ((1 ∷ 2 ∷ []) ∷ (3 ∷ []) ∷ [])))
collect_lem_example = collect_lem {A = ℕ} 4 ((1 ∷ 2 ∷ []) ∷ (3 ∷ []) ∷ [])

validate_declared_body_length-IsAccepted_example :
    (validate_declared_body_length (some "512") 1048576 ≡ ok (some 512))
    ↔ IsAccepted "512" 1048576 512
validate_declared_body_length-IsAccepted_example =
    validate_declared_body_length-IsAccepted "512" 1048576 512
