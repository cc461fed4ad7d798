-- ===== src/Screens/Watching.antt =====
-- The host's thread that waits for a client.
use psychic_fiesta.Prelude.{ℕ, zero, suc, ◌<◌, true, false, ◌≡◌, refl, arith}
use psychic_fiesta.Prelude.Outcome.{done}
use psychic_fiesta.Game.{PieceData}
use psychic_fiesta.Packet.Wire.{Bytes}
use psychic_fiesta.Rows.{VecModel}
use psychic_fiesta.Board.{BoardSquare}
use psychic_fiesta.Network.Host.{unwrap_or}
use psychic_fiesta.Interface.{is_connected, get_other_username}
use psychic_fiesta.Screens.{App, Ui, game, enter_game, host_task, no_username}

-- Slint takes the two closures of a task, and the window is there for both.
abbrev pub IsShowing : (ℕ → Ui) → Type 0
IsShowing ui =
    ((ui 0).takes ≡ true) × ((ui 0).alive ≡ true) × ((ui 1).takes ≡ true) × ((ui 1).alive ≡ true)

module _ (pv : VecModel PieceData) (sv : VecModel BoardSquare) where
  -- What the thread finds at its access `i`.
  abbrev pub found : ℕ → (ℕ → App pv sv → App pv sv) → App pv sv → App pv sv
  found zero tasks a = tasks 0 a
  found (suc i) tasks a = found i (λ j. tasks (suc j)) (tasks 0 a)

  -- From what the first state is the second differs in the window only, which shows the game with the
  -- two names.
  abbrev pub Entered : Bytes → Bytes → App pv sv → App pv sv → Type 0
  Entered my other a a' =
      (a'.window.window_state ≡ game)
      × (a'.window.my_username ≡ my)
      × (a'.window.other_username ≡ other)
      × (a'.window.join_code ≡ a.window.join_code)
      × (a'.window.is_host ≡ a.window.is_host)
      × (a'.gamedata ≡ a.gamedata)
      × (a'.peer ≡ a.peer)
      × (a'.clipboard ≡ a.clipboard)

  pub enter_game-Entered :
      (ui : ℕ → Ui) (my other : Bytes) (a : App pv sv)
      → IsShowing ui
      → (a' : App pv sv) × (enter_game pv sv ui my other a ≡ done a') × Entered my other a a'
  unfolding enter_game
  enter_game-Entered ui my other a (t₀, l₀, t₁, l₁) = (
    record a {
      window = record a.window { my_username = my; other_username = other; window_state = game };
    },
    rw (t₀, l₀, t₁, l₁) refl,
    (refl, refl, refl, refl, refl, refl, refl, refl),
  )

  -- The thread ends without a panic at the first check `k` at which the process is connected, once it
  -- has more checks than that and while Slint shows the window. The window then shows the game, with
  -- the player's name and the other one's as it is after that check, or a text in place of one that is
  -- missing then; everything else is as the thread found it when it read that name.
  pub host_task_first :
      (k n : ℕ) (ui : ℕ → Ui) (tasks : ℕ → App pv sv → App pv sv) (username : Bytes) (a : App pv sv)
      → IsShowing ui
      → ((j : ℕ) → j < k → is_connected (found j tasks a).peer ≡ false)
      → is_connected (found k tasks a).peer ≡ true
      → k < n
      → (a' : App pv sv) × (host_task pv sv n ui tasks username a ≡ done a')
        × Entered username
            (unwrap_or (get_other_username (found (suc k) tasks a).peer) no_username)
            (found (suc k) tasks a)
            a'
  unfolding host_task
  host_task_first k zero ui tasks username a shows before at h = absurd (omega arith)
  host_task_first zero (suc n) ui tasks username a shows before at h =
      let reads = tasks 1 (tasks 0 a) in
      let (a', e, entered) =
        enter_game-Entered ui username (unwrap_or (get_other_username reads.peer) no_username) reads
          shows in
      (a', rw at e, entered)
  host_task_first (suc k) (suc n) ui tasks username a shows before at h =
      rw (before 0 (omega arith)) (
        host_task_first k n ui (λ i. tasks (suc i)) username (tasks 0 a) shows
          (λ j lt. before (suc j) (omega arith)) at (omega arith))
