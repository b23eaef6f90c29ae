-- ===== src/ChannelService/Tests.antt =====
-- examples/channel_service.rs with a sleep of two polls.
use pants_tower.Base.{ℕ, zero, suc, ◌≡◌, refl, Bool, false, List, [], ◌∷◌, ◌++◌}
use pants_tower.Service.{Poll, ready, not_ready, Future}
use pants_tower.Loop.{answers}
use pants_tower.Channels.{Mpsc}
use pants_tower.Channels.Lists.{slots, lists}
use pants_tower.ChannelService.{
  ChannelService, Message, answering, Running, poll_answering, call, poll,
}
use pants_tower.ChannelService.Echo.{Dozes, with_sleep, call-Dozes}

-- A sleep is the polls that are left before it fires.
abbrev poll_sleep : ℕ → Poll (Unit {0}) ℕ × ℕ
poll_sleep zero = (ready tt, 0)
poll_sleep (suc n) = (not_ready, n)

abbrev timer : Future ℕ (Unit {0}) ℕ
timer = record { poll = poll_sleep }

abbrev queue : Mpsc (Unit {0}) (List (Message ℕ (Bool × ℕ))) (Message ℕ (Bool × ℕ))
queue = lists 5

abbrev service : ChannelService (Unit {0})
service = record { tx = tt }

abbrev waiting : List (Message ℕ (Bool × ℕ))
waiting = (3, (false, 1)) ∷ []

call-Dozes_example :
    let (f, self', rx', o1) = call queue slots service waiting ([], 7) 4 in
    let m : Message ℕ (Bool × ℕ) = (4, (false, 7)) in
    (rx' ≡ waiting ++ m ∷ [])
    × Dozes slots timer 2 (answering (λ d. 2) m, ([], 9)) (with_sleep slots timer 0 m ([], 9))
    × ((run : Running slots timer) × (poll_answering slots timer
            (with_sleep slots timer 0 m ([], 9))
          ≡ answers (ready tt) run)
        × ((poll slots f run.1).0 ≡ ready 4))
call-Dozes_example =
    call-Dozes queue slots (λ d. 2) timer service waiting ([], 7) ([], 9) 4 2 0 refl refl
      (_, refl, (_, refl, refl)) refl
