-- ===== src/NetClient/Stop.antt =====
-- The read thread of src/net/network/client.cpp: what its rounds and its stop keep, and what `disconnect`
-- leaves of the threads.
use go_game.Prelude.{
  ℕ, zero, suc, ◌≡◌, refl, sym, ◌∙◌, ap, Bool, true, false, ◌&&◌, Option, none, some, List, arith,
  if◌then◌else◌, Bool-cases, inl, inr, ◌+◌,
}
use mathlib.Core.Option.{some-injective}
use go_game.Net.{ServerEvent, server_session_assign, server_game_config, server_delta, server_chat}
use go_game.Json.{Json}
use go_game.Codec.{from_server_message}
use go_game.Wire.{Endian}
use go_game.Socket.{Socket}
use go_game.TcpClient
use go_game.TcpClient.{TcpClient}
use go_game.NetClient.{
  HandlerCall, no_thread, thread_looping, thread_ended, NetClient, stop_if, go_on,
  handle_network_event, visit, read_message, read_loop, join, stop_read_loop, disconnect,
}

module _ (J : Json) (S : Socket) (endian : Endian) where
  pub running-read_message :
      (c : NetClient J S endian) → (read_message J S endian c).0.running ≡ c.running
  unfolding read_message handle_network_event
  running-read_message c =
      visited (record c { client = (TcpClient.read S endian c.client).1 })
        (from_server_message J (TcpClient.read S endian c.client).0)
    where
      visited :
          (d : NetClient J S endian) (o : Option ServerEvent)
          → (visit J S endian d o).0.running ≡ d.running
      visited d none = refl
      visited d (some (server_session_assign id)) = refl
      visited d (some (server_game_config e)) = refl
      visited d (some (server_delta e)) = refl
      visited d (some (server_chat e)) = refl

  -- The rounds after the first end in the same state.
  pub last-go_on :
      (rest : Option (NetClient J S endian × List HandlerCall)) (calls all : List HandlerCall)
      (last : NetClient J S endian)
      → go_on J S endian calls rest ≡ some (last, all)
      → (more : List HandlerCall) × (rest ≡ some (last, more))
  last-go_on none calls all last e = absurd (cc e)
  last-go_on (some (a, more)) calls all last e =
      let first =
        ap (λ (r : NetClient J S endian × List HandlerCall). r.0) (some-injective _ _ e) in
      (more, ap (λ (a' : NetClient J S endian). some (a', more)) first)

  pub running-read_loop :
      (fuel : ℕ) (c c' : NetClient J S endian) (calls : List HandlerCall)
      → read_loop J S endian fuel c ≡ some (c', calls)
      → c'.running ≡ c.running
  unfolding read_loop
  running-read_loop zero c c' calls e = absurd (cc e)
  running-read_loop (suc fuel) c c' calls e =
      elim (Bool-cases (c.running && c.client.is_connected)) [
        | inl on ↦
            let (more, rest) =
              last-go_on (read_loop J S endian fuel (read_message J S endian c).0) _ calls c'
                (rw on at e) in
            running-read_loop fuel (read_message J S endian c).0 c' more rest
            ∙ running-read_message c
        | inr off ↦
            let same = some-injective _ _ (rw off at e) in
            ap (λ (r : NetClient J S endian × List HandlerCall). r.0.running) (sym same)
      ]

  read_thread-join : (c : NetClient J S endian) → (join J S endian c).0.read_thread ≡ no_thread
  read_thread-join c =
      elim c.read_thread
        as (λ thread.
          (join J S endian (record c { read_thread = thread })).0.read_thread ≡ no_thread) [
            | no_thread ↦ refl
            | thread_looping ↦ refl
            | thread_ended ↦ refl
          ]

  read_thread-stop_if :
      (running own : Bool) (c : NetClient J S endian)
      → (running ≡ false → c.read_thread ≡ no_thread)
      → (stop_if J S endian running own c).0.read_thread ≡ no_thread
  read_thread-stop_if false own c joined = joined refl
  read_thread-stop_if true true c joined = refl
  read_thread-stop_if true false c joined = read_thread-join (record c { running = false })

  pub read_thread-disconnect :
      (own : Bool) (c : NetClient J S endian)
      → (c.running ≡ false → c.read_thread ≡ no_thread)
      → (disconnect J S endian own c).0.read_thread ≡ no_thread
  unfolding disconnect stop_read_loop
  read_thread-disconnect own c joined =
      read_thread-stop_if c.running own (record c { client = TcpClient.disconnect S c.client })
        joined

  detached-read_message :
      (c : NetClient J S endian) → (read_message J S endian c).0.detached ≡ c.detached
  unfolding read_message handle_network_event
  detached-read_message c =
      visited (record c { client = (TcpClient.read S endian c.client).1 })
        (from_server_message J (TcpClient.read S endian c.client).0)
    where
      visited :
          (d : NetClient J S endian) (o : Option ServerEvent)
          → (visit J S endian d o).0.detached ≡ d.detached
      visited d none = refl
      visited d (some (server_session_assign id)) = refl
      visited d (some (server_game_config e)) = refl
      visited d (some (server_delta e)) = refl
      visited d (some (server_chat e)) = refl

  detached-join : (c : NetClient J S endian) → (join J S endian c).0.detached ≡ c.detached
  detached-join c =
      elim c.read_thread
        as (λ thread.
          (join J S endian (record c { read_thread = thread })).0.detached ≡ c.detached) [
            | no_thread ↦ refl
            | thread_looping ↦ detached-read_message (record c { read_thread = thread_looping })
            | thread_ended ↦ refl
          ]

  detached-stop_if :
      (running own : Bool) (c : NetClient J S endian)
      → (stop_if J S endian running own c).0.detached
        ≡ c.detached + (if own && running then 1 else 0)
  detached-stop_if false own c =
      elim own as (λ b. c.detached ≡ c.detached + (if b && false then 1 else 0)) [
        | true ↦ omega arith
        | false ↦ omega arith
      ]
  detached-stop_if true true c = refl
  detached-stop_if true false c =
      let same = detached-join (record c { running = false }) in omega (arith, same)

  pub detached-disconnect :
      (own : Bool) (c : NetClient J S endian)
      → (disconnect J S endian own c).0.detached ≡ c.detached + (if own && c.running then 1 else 0)
  unfolding disconnect stop_read_loop
  detached-disconnect own c =
      detached-stop_if c.running own (record c { client = TcpClient.disconnect S c.client })
