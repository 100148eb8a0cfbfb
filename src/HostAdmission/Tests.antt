-- ===== src/HostAdmission/Tests.antt =====
-- A shield on which its bounds are applied.
use nehemiah.Base.{◌≤◌, ◌≡◌, refl, [], ◌∷◌, ok, arith}
use nehemiah.Base.Int.{pos, negsuc}
use nehemiah.Base.Number.{integer}
use nehemiah.HostAdmission.{Shield, make_shield}
use nehemiah.HostAdmission.Bounds.{
  enters, leaves, after, admitted, after-le-maximum, admitted-le-requests,
}

abbrev shield : Shield
shield = record {
  slot_count = 1024;
  slots = λ index. record { window = negsuc 0; count = 0 };
  requests_per_second = 2;
  maximum_concurrent_verifications = 1;
  active_verifications = 0;
}

made_run : make_shield (integer (pos 1024)) (integer (pos 2)) (integer (pos 1)) ≡ ok shield
unfolding make_shield
made_run = refl

after-le-maximum_example :
    (after
      (enters 5000 7 ∷ enters 5001 9 ∷ leaves ∷ enters 5002 9 ∷ [])
      shield).active_verifications
    ≤ 1
after-le-maximum_example =
    after-le-maximum (enters 5000 7 ∷ enters 5001 9 ∷ leaves ∷ enters 5002 9 ∷ []) shield
      (omega arith)

admitted-le-requests_example :
    admitted 7 (enters 5000 7 ∷ leaves ∷ enters 5001 7 ∷ leaves ∷ enters 5002 7 ∷ []) shield ≤ 2
admitted-le-requests_example =
    admitted-le-requests 5 7 (enters 5000 7 ∷ leaves ∷ enters 5001 7 ∷ leaves ∷ enters 5002 7 ∷ [])
      shield (refl, (tt, (refl, (tt, (refl, tt)))))
