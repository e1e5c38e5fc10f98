-- ===== src/Events/Tests.antt =====
-- Two notifications of one key, and a synchronisation that is left for the scan.
use web_bijin.Prelude.{ℕ, ◌≤◌, ◌≡◌, refl, true, false, not, some, [], codes, text_beq}
use web_bijin.Events.{
  has_pending, schedule, is_again, end_pass, temporary, SyncEnd, left, sync, sync_from,
}
use web_bijin.Events.Passes.{
  Watch, IsWatched, Reach, here, next, notifies, passes, no_notification_lost, sync-ends,
}

program : Unit {0}
unfolding has_pending schedule is_again end_pass sync sync_from text_beq
program = tt

abbrev quiet : Watch
quiet = record { pending = []; working = false; late = false }

quiet-IsWatched : IsWatched (codes "k") quiet
quiet-IsWatched = record { noted = refl; settled = λ e. refl }

two_notifications : Reach (codes "k") quiet quiet
unfolding program
two_notifications = next (next (next (next here notifies) notifies) (passes refl)) (passes refl)

no_notification_lost_example :
    (quiet.working ≡ false → quiet.late ≡ false)
    × ((schedule (codes "k") quiet.pending).0 ≡ not quiet.working)
no_notification_lost_example = no_notification_lost two_notifications quiet-IsWatched

three_failures : sync (λ n. temporary) (λ n. true) ≡ some (left, 3)
unfolding program
three_failures = refl

sync-ends_example :
    (end : SyncEnd) × (n : ℕ) × (sync (λ m. temporary) (λ m. true) ≡ some (end, n))
    × (n ≤ 3)
    × (end ≡ left → n ≡ 3)
sync-ends_example = sync-ends (λ m. temporary) (λ m. true)
