-- ===== src/GameServer/Laws.antt =====
-- What the handlers of src/apps/runtime/gameServer.cpp let a client do.
use go_game.Prelude.{
  ℕ, suc, ◌%◌, ◌≡◌, ◌≢◌, refl, inl, inr, ◌⊎◌, true, false, not, ◌&&◌, ◌==◌, arith, List, [], ◌∷◌,
  ◌++◌, length, Bool-cases,
}
use go_game.Model.{Player}
use go_game.Position.{u32_mod}
use go_game.Hub.{GameEvent, put_stone_event, pass_event, resign_event, shutdown_event}
use go_game.Net.{
  Seat, is_player, ClientEvent, client_put_stone, client_pass, client_resign, client_chat,
  ServerEvent, server_game_config,
}
use go_game.GameServer.{
  default_komi, GameServer, has_player, player_of_seat, add_player, on_client_connected,
  handle_network_event, on_network_event,
}

-- The events that a player may put into the game: those with the player's own colour.
abbrev pub IsOwn : Player → GameEvent → Type 0
IsOwn p (put_stone_event q c) = q ≡ p
IsOwn p (pass_event q) = q ≡ p
IsOwn p resign_event = Unit
IsOwn p shutdown_event = ⊥

-- What an event of a client does to the queue of the game.
pub data Pushed (s s' : GameServer) (seat : Seat) : Type 0 where
  nothing : s'.game ≡ s.game → Pushed s s' seat
  one :
      (e : GameEvent)
      → is_player seat ≡ true
      → s.game.game_active ≡ true
      → IsOwn (player_of_seat seat) e
      → s'.game ≡ record s.game { event_queue = s.game.event_queue ++ e ∷ [] }
      → Pushed s s' seat

handle_network_event-Pushed :
    (s : GameServer) (seat : Seat) (event : ClientEvent)
    → is_player seat ≡ true
    → Pushed s (handle_network_event s (player_of_seat seat) event).0 seat
unfolding handle_network_event
handle_network_event-Pushed s seat (client_put_stone c) plays =
    elim (Bool-cases s.game.game_active) [
      | inl active ↦
          one (put_stone_event (player_of_seat seat) c) plays active refl (rw active refl)
      | inr idle ↦ nothing (rw idle refl)
    ]
handle_network_event-Pushed s seat client_pass plays = elim (Bool-cases s.game.game_active) [
  | inl active ↦ one (pass_event (player_of_seat seat)) plays active refl (rw active refl)
  | inr idle ↦ nothing (rw idle refl)
]
handle_network_event-Pushed s seat client_resign plays = elim (Bool-cases s.game.game_active) [
  | inl active ↦ one resign_event plays active tt (rw active refl)
  | inr idle ↦ nothing (rw idle refl)
]
handle_network_event-Pushed s seat (client_chat message) plays = nothing refl

-- An event of a client leaves the game, or it adds one event at the end of the game's queue. It adds one
-- only for a session with a player's seat and while the game is active, and that event is a put or a
-- pass of the colour of the seat, or a resignation; never a shutdown.
pub on_network_event-Pushed :
    (get_seat : ℕ → Seat) (s : GameServer) (session : ℕ) (event : ClientEvent)
    → Pushed s (on_network_event get_seat s session event).0 (get_seat session)
unfolding on_network_event
on_network_event-Pushed get_seat s session event =
    elim (Bool-cases (is_player (get_seat session))) [
      | inl plays ↦ rw plays (handle_network_event-Pushed s (get_seat session) event plays)
      | inr watches ↦ rw watches (nothing refl)
    ]

-- What a connection does, and when.
pub data Joined (s : GameServer) (session : ℕ) (seat : Seat) (r : GameServer × List ServerEvent)
    : Type 0 where
  not_joined :
      (is_player seat ≡ false)
        ⊎ (s.game.game_active ≡ true)
        ⊎ (has_player (player_of_seat seat) s.players ≡ true)
      → r ≡ (s, [])
      → Joined s session seat r
  first_joined :
      is_player seat ≡ true
      → s.game.game_active ≡ false
      → has_player (player_of_seat seat) s.players ≡ false
      → (length s.players ≢ 1) ⊎ (s.has_thread ≡ true)
      → r ≡ (record s { players = (player_of_seat seat, session) ∷ s.players }, [])
      → Joined s session seat r
  game_started :
      is_player seat ≡ true
      → s.game.game_active ≡ false
      → has_player (player_of_seat seat) s.players ≡ false
      → length s.players ≡ 1
      → s.has_thread ≡ false
      → r ≡ (
        record s { players = (player_of_seat seat, session) ∷ s.players; has_thread = true },
        server_game_config (record {
          board_size = s.game.position.board.size % u32_mod;
          komi = default_komi;
          time_seconds = 0;
        })
            ∷ [],
      )
      → Joined s session seat r

on_client_connected_free :
    (s : GameServer) (session : ℕ) (seat : Seat)
    → is_player seat ≡ true
    → s.game.game_active ≡ false
    → has_player (player_of_seat seat) s.players ≡ false
    → on_client_connected s session seat ≡ add_player s (player_of_seat seat) session
unfolding on_client_connected
on_client_connected_free s session seat plays idle free = ground arith

no_start :
    (s : GameServer)
    → (suc (length s.players) == 2) && not s.has_thread ≡ false
    → (length s.players ≢ 1) ⊎ (s.has_thread ≡ true)
no_start s waits = elim (Bool-cases s.has_thread) [
  | inl on ↦ inr on
  | inr off ↦ inl (λ one'. absurd (ground (arith, off, one')))
]

add_player-Joined :
    (s : GameServer) (session : ℕ) (seat : Seat)
    → is_player seat ≡ true
    → s.game.game_active ≡ false
    → has_player (player_of_seat seat) s.players ≡ false
    → Joined s session seat (add_player s (player_of_seat seat) session)
unfolding add_player
add_player-Joined s session seat plays idle free =
    elim (Bool-cases ((suc (length s.players) == 2) && not s.has_thread)) [
      | inl starts ↦ game_started plays idle free (ground arith) (ground arith) (rw starts refl)
      | inr waits ↦ first_joined plays idle free (no_start s waits) (rw waits refl)
    ]

-- Of a connection: nothing is done exactly when the seat is not that of a player, the game is active, or
-- the player of the seat is there. Otherwise that player is added with the session; and if the player is
-- the second one and the game has no thread, the thread is started and the configuration with the size
-- of the board is broadcast, and else nothing is.
pub on_client_connected-Joined :
    (s : GameServer) (session : ℕ) (seat : Seat)
    → Joined s session seat (on_client_connected s session seat)
on_client_connected-Joined s session seat = elim (Bool-cases (is_player seat)) [
  | inr watches ↦ not_joined (inl watches) (unfold on_client_connected in rw watches refl)
  | inl plays ↦ elim (Bool-cases s.game.game_active) [
    | inl active ↦
        not_joined (inr (inl active)) (unfold on_client_connected in rw (plays, active) refl)
    | inr idle ↦ elim (Bool-cases (has_player (player_of_seat seat) s.players)) [
      | inl taken ↦
          not_joined (inr (inr taken)) (unfold on_client_connected in rw (plays, idle, taken) refl)
      | inr free ↦
          rw (on_client_connected_free s session seat plays idle free)
            (add_player-Joined s session seat plays idle free)
    ]
  ]
]
