-- ===== src/Tests/Saints.antt =====
-- The theorems on src/vmod_saintmode.c at concrete inputs.
use operations_debs_varnish.Base.{
  ◌+◌, ◌<◌, ◌≤◌, ◌↔◌, ◌⊎◌, true, List, [], ◌∷◌, none, some, ◌≡◌, refl, arith, codes, length,
}
use operations_debs_varnish.Base.Int.{pos}
use operations_debs_varnish.Saintmode.Trouble.{Saintmode, Trouble, is_digest_healthy}
use operations_debs_varnish.Saintmode.Director.{
  Busyobj, Req, Ctx, backend_response, vmod_blacklist, find_sm, blacklisted,
  vmod_saintmode_blacklist_count, resolve, healthy, vmod_saintmode__init, to_unsigned, hash,
}
use operations_debs_varnish.Saintmode.Check.{IsCounted, against, current, is_digest_healthy_iff}
use operations_debs_varnish.Saintmode.Blacklist.{
  Call, adding, checking, calls, vmod_blacklist-resolve, calls-IsCounted,
}
use operations_debs_varnish.Saintmode.Recovery.{checks, FollowsBackend, resolve_recovers}
use operations_debs_varnish.Saintmode.Record.{
  IsClock, Event, blacklists, resolves, asks, acts, answers,
}
use operations_debs_varnish.Saintmode.Recorded.{acts_judged}
use operations_debs_varnish.Saintmode.Race.{healthy_raced, healthy_raced_lem}
use operations_debs_varnish.Tests.Given.{clock}

abbrev one_trouble : Trouble clock
one_trouble = record { digest = codes "d"; timeout = 50 }

abbrev a_saint : Saintmode clock
a_saint = record {
  vcl_name = codes "sm";
  be = 3;
  threshold = 2;
  n_trouble = 1;
  troublelist = one_trouble ∷ [];
}

abbrev disabled : Saintmode clock
disabled = record a_saint { threshold = 0 }

abbrev busy : Busyobj clock
busy = record { digest = codes "e"; t_prev = 40; director_resp = 3 }

abbrev request : Req clock
request = record { digest = codes "e"; t_prev = 40 }

abbrev response : Ctx clock
response = record { method = backend_response; req = none; bo = busy }

is_digest_healthy_iff_example :
    ((is_digest_healthy clock (some (codes "e")) 40 a_saint).1 ≡ true) ↔ (
      (length (against clock (some (codes "e")) (current clock 40 (one_trouble ∷ []))) ≡ 0)
      × (length (current clock 40 (one_trouble ∷ [])) < 2))
is_digest_healthy_iff_example =
    is_digest_healthy_iff clock (some (codes "e")) 40 a_saint (refl, omega arith)

vmod_blacklist-resolve_example :
    (sms' : List (Saintmode clock)) × (sm' : Saintmode clock) × (vmod_blacklist clock response 20
        (some (a_saint ∷ []))
      ≡ (some sms', blacklisted))
    × (find_sm clock 3 sms' ≡ some sm')
    × (vmod_saintmode_blacklist_count clock sm' ≡ vmod_saintmode_blacklist_count clock a_saint + 1)
    × ((resolve clock (λ b. true) 60 (some (record busy { t_prev = 60 })) sm').1 ≡ none)
unfolding find_sm
vmod_blacklist-resolve_example =
    vmod_blacklist-resolve clock (λ b. true) 60 response 20 (a_saint ∷ []) a_saint
      (record busy { t_prev = 60 }) refl refl (omega arith) (omega arith) refl refl

abbrev some_calls : List (Call clock)
some_calls = adding (codes "d") 50 ∷ checking none 60 ∷ adding (codes "e") 70 ∷ []

calls-IsCounted_example :
    IsCounted clock
      (calls clock some_calls (vmod_saintmode__init clock (codes "sm") 3 (pos 2) none).0)
    × (length
          (calls clock some_calls
            (vmod_saintmode__init clock (codes "sm") 3 (pos 2) none).0).troublelist
        ≤ 3)
calls-IsCounted_example = calls-IsCounted clock (codes "sm") 3 (pos 2) none some_calls (omega arith)

resolve_recovers_example :
    (sm' : Saintmode clock) × (resolve clock
        (λ b. true)
        60
        none
        (checks clock ((some (codes "d"), 40) ∷ []) a_saint)
      ≡ (sm', some 3))
    × (sm'.be ≡ 3)
    × FollowsBackend clock (λ b. true) sm'
resolve_recovers_example =
    resolve_recovers clock (λ b. true) ((some (codes "d"), 40) ∷ []) 60 none a_saint
      (refl, omega arith) (refl, tt)

-- The object before its trouble was added
abbrev untroubled : Saintmode clock
untroubled = record a_saint { n_trouble = 0; troublelist = [] }

healthy_raced_lem_example :
    ((healthy clock (λ b. true) 40 (some busy) untroubled
        ≡ (untroubled, (healthy clock (λ b. true) 40 (some busy) untroubled).1))
      × (healthy_raced clock (λ b. true) 40 (some busy) untroubled a_saint
          ≡ (a_saint, (healthy clock (λ b. true) 40 (some busy) untroubled).1)))
    ⊎ (healthy_raced clock (λ b. true) 40 (some busy) untroubled a_saint
        ≡ healthy clock (λ b. true) 40 (some busy) a_saint)
healthy_raced_lem_example =
    healthy_raced_lem clock (λ b. true) 40 (some busy) untroubled a_saint refl (refl, omega arith)

clock-IsClock : IsClock clock
clock-IsClock = record { lt_time_trans = λ x a b e f. ground arith }

-- The second entry is in force when the digest is asked for, the first has expired.
abbrev some_events : List (Event clock)
some_events =
    blacklists (codes "d") 50
    ∷ resolves (λ b. true) 40 (some busy)
    ∷ blacklists (codes "e") 70
    ∷ resolves (λ b. true) 60 none
    ∷ asks (λ b. true) 60 hash (some (record request { t_prev = 65 })) none
    ∷ asks (λ b. true) 80 hash none none
    ∷ []

acts_judged_example :
    acts clock some_events (vmod_saintmode__init clock (codes "sm") 3 (pos 2) none).0
    ≡ answers clock 3 (to_unsigned (pos 2)) some_events []
acts_judged_example =
    acts_judged clock clock-IsClock some_events 0 (codes "sm") 3 (pos 2) none
      (refl, (refl, (refl, (refl, tt)))) (omega arith)
