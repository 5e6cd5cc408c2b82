-- ===== src/RateLimit/Tests.antt =====
-- The rate limit on a concrete counter.
use ai_wa_chat_agent_be.Prelude.{ℕ, suc, ◌≡◌, refl, none, List, [], ◌∷◌, arith, min, length}
use ai_wa_chat_agent_be.RateLimit.{passes}
use ai_wa_chat_agent_be.RateLimit.Window.{passes-window}
use ai_wa_chat_agent_be.RateLimit.Counter.{counter}

abbrev later_times : List ℕ
later_times = 110 ∷ 120 ∷ 159 ∷ []

passes-window_example :
    passes counter 2 60 (100 ∷ later_times) (0, none) ≡ min (suc (length later_times)) 2
passes-window_example =
    passes-window counter 2 60 100 later_times (0, none) (omega arith) (omega arith) refl
      (omega arith)
