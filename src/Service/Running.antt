-- ===== src/Service/Running.antt =====
-- The loop of src/change_service/service_main.cpp and change_service.hpp over the server: the
-- messages that come in between two calls of `update` are a batch, and the loop ends after the last
-- one.
use mathlib.Core.List.{foldl, foldl-append}
use wallchanger.Base.{
  take-drop_of_le, ℕ, ◌+◌, ◌-◌, ◌^◌, ◌≤◌, ◌≡◌, refl, sym, ◌∙◌, ap, List, [], ◌∷◌, ◌++◌, length,
  Option, none, some, Outcome, done, ◌>>=◌,
}
use wallchanger.Net.Message.{Message}
use wallchanger.Net.Types.{MessageType}
use wallchanger.Net.Connection.{OwnedMessage}
use wallchanger.Net.Server.{update, handle, update_lem}
use wallchanger.Service.Library.{Library}
use wallchanger.Service.State.{State}
use wallchanger.Service.Server.{Json, World, on_message}

-- The server with what it has sent, to whom, and the number of messages that it has handled.
pub record Serving (L : Type 0) : Type 0 where
  pub m_state : State L
  pub sent : List (Option ℕ × Message MessageType)
  pub handled : ℕ

-- `size_t` of -1.
abbrev pub no_limit : ℕ
no_limit = 2 ^ 64 - 1

module _ {L J : Type 0} (lib : Library L) (json : Json J) (world : ℕ → World) where
  abbrev pub reply : Option ℕ → Serving L → Option (Message MessageType) × State L → Serving L
  reply remote s (none, state) = record s { m_state = state; handled = s.handled + 1 }
  reply remote s (some msg, state) = record {
    m_state = state;
    sent = s.sent ++ (remote, msg) ∷ [];
    handled = s.handled + 1;
  }

  -- `on_message` for one client. A method that does not return ends the program.
  unfoldable pub serve : Option ℕ → Message MessageType → Outcome (Serving L) → Outcome (Serving L)
  serve remote msg o = o >>= λ s.
      on_message lib json (world s.handled) msg s.m_state >>= λ r. done (reply remote s r)

  -- `while (!stop_server) { server.update(-1, false); }`
  unfoldable pub main_loop :
      List (List (OwnedMessage MessageType))
      → List (OwnedMessage MessageType)
      → Outcome (Serving L)
      → List (OwnedMessage MessageType) × Outcome (Serving L)
  main_loop [] queue s = (queue, s)
  main_loop (batch ∷ batches) queue s =
      let after = update serve no_limit (queue ++ batch) s in main_loop batches after.0 after.1

abbrev pub concat {ℓ} : {A : Type ℓ} → List (List A) → List A
concat [] = []
concat (l ∷ ls) = l ++ concat ls

-- Fewer messages than a call of `update` may handle.
abbrev pub Bounded {ℓ} : {A : Type ℓ} → ℕ → List (List A) → Type 0
Bounded n [] = Unit
Bounded n (l ∷ ls) = (length l ≤ n) × Bounded n ls

module _ {L J : Type 0} (lib : Library L) (json : Json J) (world : ℕ → World) where
  -- The loop handles every message that came in, once, in the order in which they came, whatever
  -- the batches, and leaves none.
  pub main_loop_lem :
      (batches : List (List (OwnedMessage MessageType))) (s : Outcome (Serving L))
      → Bounded no_limit batches
      → main_loop lib json world batches [] s
        ≡ ([], foldl (handle (serve lib json world)) s (concat batches))
  unfolding main_loop
  main_loop_lem [] s h = refl
  main_loop_lem (b ∷ bs) s h =
      let k = take-drop_of_le no_limit b h.0 in
      rw (update_lem (serve lib json world) no_limit b s, k.0, k.1)
        (main_loop_lem bs (foldl (handle (serve lib json world)) s b) h.1
          ∙ ap (λ r. ([], r)) (sym (foldl-append (handle (serve lib json world)) s b (concat bs))))
