-- ===== src/Net/WaitingTests.antt =====
-- Runs of the two threads at a queue of numbers.
use wallchanger.Base.{
  false, Bool, true, some, none, ◌==◌, nat_ordered, done, ℕ, ◌≡◌, ◌≢◌, ◌⊎◌, refl, List, [], ◌∷◌,
  ◌++◌,
}
use wallchanger.Net.Queue.{pop_front, is_empty}
use wallchanger.Net.Waiting.{broken, looping, Waiting, at_first, consume, pop, Steps, consumes}
use wallchanger.Net.Message.{Message}
use wallchanger.Net.Pointers.{Call, accepts, messages_all, NoNull, calls, report_all, calls-NoNull}
use wallchanger.Net.Startup.{change_client, Early, change_client-Early}
use wallchanger.Net.Client.{ClientInterface}
use wallchanger.Net.Types.{MessageType}
use wallchanger.Net.Handed.{Steps-handed}
use wallchanger.Net.Wakeups.{Produces, Gives, sleeping, push-goes_on, Steps-sleeping}

abbrev two : List ℕ
two = 4 ∷ 9 ∷ []

Steps-sleeping_example : Steps 5 at_first (sleeping two)
Steps-sleeping_example = Steps-sleeping 5 two

push-goes_on_example : Produces 7 (sleeping two) ⊎ Gives 5 (sleeping two)
push-goes_on_example = push-goes_on 5 7 (sleeping two) (Steps-sleeping 5 two)

-- The thread that sleeps wakes by itself, and takes the first message.
abbrev awoken : Waiting ℕ
awoken = record (sleeping two) { consumer = looping 4; queue = 9 ∷ []; taken = 4 ∷ [] }

takes : Steps 5 at_first awoken
unfolding consume is_empty pop pop_front
takes =
    consumes _ _
      (consumes _ _
        (consumes _ _
          (consumes _ _
            (consumes _ _
              (consumes _ _ (consumes (sleeping two) _ (Steps-sleeping 5 two) refl) refl) refl)
            refl)
          refl)
        refl)
      refl

Steps-handed_example : (awoken.taken ++ awoken.queue ≡ awoken.given) × (awoken.consumer ≢ broken)
Steps-handed_example = Steps-handed 5 awoken takes

abbrev message : Message ℕ
message = record { header = record { id = 1; size = 0; hash = 0 }; time = 0; body = [] }

-- Two clients come, the first one is lost, and both get a message.
abbrev session : List ((ℕ → Bool) × Call ℕ)
session =
    ((λ i. true), accepts (some (4, 70)))
    ∷ ((λ i. true), accepts (some (5, 71)))
    ∷ ((λ i. i == 5), messages_all none message)
    ∷ []

calls-NoNull_example :
    NoNull (calls (λ i. true) session (record { m_connections = []; effects = [] })).m_connections
    × (ids : List ℕ) × (report_all
          (calls (λ i. true) session (record { m_connections = []; effects = [] })).effects
        ≡ done ids)
calls-NoNull_example = calls-NoNull (λ i. true) session

-- JSON values that are never read.
change_client-Early_example :
    (c : ClientInterface MessageType) × (change_client false false none 1 ≡ done (true, c))
    × Early {Json = ℕ} (λ b. none) false 3 [] c
change_client-Early_example = change_client-Early (λ b. none) false false none 1 3 []
