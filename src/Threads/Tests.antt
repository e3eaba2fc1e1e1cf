-- ===== src/Threads/Tests.antt =====
-- Runs of the scheduler from thread_init on.
use zakos.Common.{ℕ, ◌≡◌, ◌<◌, refl, inr, false, none, [], ◌∷◌, ◌&&◌, not, arith, without}
use zakos.Threads.{
  Sched, wait, schedule_next, wake_expired, put_current, select_thread, add_ready, wake,
}
use zakos.BinHeap.{init}
use zakos.Threads.Blocking.{Waits, HasRoom, wait_lem}
use zakos.Threads.Expiry.{Expired, wake_expired_lem}
use zakos.Threads.Contenders.{contenders}
use zakos.Threads.Choice.{Chosen, schedule_lem}
use zakos.Threads.Life.{create, boot, launch}
use zakos.Threads.Steps.{Runs, Reach, booted, next, created, waited, yielded, Reach-Inv}

-- Two threads of priority 2, one of which waits until 50 in the queue at 900 while the other runs.
abbrev one : Sched
one = (create boot 7 0 2 1 none none).1

abbrev two : Sched
two = (create one 9 0 2 1 none none).1

abbrev running : Sched
running = schedule_next two

abbrev waiting : Sched
waiting = schedule_next (wait running 7 900 50)

one-Reach : Reach one
one-Reach = next booted (created 7 0 2 1 none none refl)

two-Reach : Reach two
unfolding create launch add_ready wake
two-Reach = next one-Reach (created 9 0 2 1 none none refl)

running-Reach : Reach running
running-Reach = next two-Reach yielded

running-Runs : Runs running 7
unfolding schedule_next put_current select_thread create launch add_ready wake
running-Runs = (refl, refl)

running-room : HasRoom running 50
unfolding schedule_next put_current select_thread create launch add_ready wake init
running-room = inr (omega arith)

waiting-Reach : Reach waiting
waiting-Reach = next running-Reach (waited 7 900 50 running-Runs running-room)

-- The other thread is next, and the one that runs comes behind it.
others_first : (q : ℕ) → q < 2 → contenders running q ≡ []
unfolding schedule_next put_current select_thread create launch add_ready wake without
others_first q p = ground arith

nine_next : contenders running 2 ≡ 9 ∷ 7 ∷ []
unfolding schedule_next put_current select_thread create launch add_ready wake without
nine_next = refl

nine_stays : (running.exit 9 && not (running.kernel_mode 9)) ≡ false
unfolding schedule_next put_current select_thread create launch add_ready wake
nine_stays = refl

schedule_lem_example : Chosen running 2 9 (7 ∷ []) (schedule_next running)
schedule_lem_example =
    schedule_lem running 2 9 (7 ∷ []) (Reach-Inv running-Reach) (omega arith) others_first nine_next
      nine_stays

wait_lem_example : Waits running 7 900 50 (wait running 7 900 50)
wait_lem_example = wait_lem running 7 900 50 (Reach-Inv running-Reach) running-Runs.1 running-room

wake_expired_lem_example : Expired waiting 60 (wake_expired waiting.sleeping.size waiting 60)
wake_expired_lem_example = wake_expired_lem waiting 60 (Reach-Inv waiting-Reach)
