-- ===== src/Connection/Writes.antt =====
-- The writes of src/net/core/connection.cpp: where a connection stands between what it took and what it
-- wrote. The reads and the end of a connection leave that alone.
use go_game.Prelude.{
  ℕ, ◌≡◌, refl, true, false, not, Option, none, some, List, [], ◌∷◌, ◌++◌, ltb, if-either, ◌==◌,
}
use go_game.Net.{Text}
use go_game.Wire.{Endian, payload_size, frame, max_payload_bytes}
use go_game.TcpClient.Reads.{frames}
use go_game.Connection.{
  Connection, Callback, Reading, reads_header, reads_payload, stop, do_disconnect, sized,
  header_of_read, payload_of_read,
}

-- Nothing to write, a write in flight of the first message of the queue, or a connection that is over.
pub data Writes (endian : Endian) (c : Connection) (all : List Text) : Type 0 where
  rests :
      c.running ≡ true
      → c.write_queue ≡ []
      → c.write_in_progress ≡ false
      → c.in_flight ≡ none
      → c.written ++ frames endian c.posted ≡ frames endian all
      → Writes endian c all
  flies :
      (m : Text) (ms : List Text)
      → c.write_queue ≡ m ∷ ms
      → c.write_in_progress ≡ true
      → c.in_flight ≡ some (frame endian m)
      → c.written ++ (frame endian m ++ frames endian (ms ++ c.posted)) ≡ frames endian all
      → Writes endian c all
  over :
      (rest : Text)
      → c.running ≡ false
      → c.in_flight ≡ none
      → c.written ++ rest ≡ frames endian all
      → Writes endian c all

module _ (endian : Endian) where
  -- What concerns the reads leaves the writes alone, and the end of the connection starts no write.
  pub reading-Writes :
      (c : Connection) (all : List Text) (r : Reading)
      → Writes endian c all
      → Writes endian (record c { reading = r }) all
  reading-Writes c all r (rests on queue progress none' done) = rests on queue progress none' done
  reading-Writes c all r (flies m ms queue progress some' done) =
      flies m ms queue progress some' done
  reading-Writes c all r (over rest off none' done) = over rest off none' done

  closed-Writes :
      (c : Connection) (all : List Text)
      → Writes endian c all
      → Writes endian (record c { running = false }) all
  closed-Writes c all (rests on queue progress none' done) =
      over (frames endian c.posted) refl none' done
  closed-Writes c all (flies m ms queue progress some' done) = flies m ms queue progress some' done
  closed-Writes c all (over rest off none' done) = over rest refl none' done

  pub stop-Writes :
      (c : Connection) (all : List Text) → Writes endian c all → Writes endian (stop c) all
  unfolding stop
  stop-Writes c all w =
      if-either (λ c'. Writes endian c' all) c.running (λ on. closed-Writes c all w) (λ off. w)

  -- The state that an operation leaves.
  abbrev pub Leaves : List Text → Connection × List Callback → Type 0
  Leaves all r = Writes endian r.0 all

  do_disconnect-Writes :
      (c : Connection) (all : List Text) → Writes endian c all → Leaves all (do_disconnect c)
  unfolding do_disconnect
  do_disconnect-Writes c all w =
      if-either (Leaves all) c.running (λ on. closed-Writes c all w) (λ off. w)

  sized-Writes :
      (c : Connection) (all : List Text) (size : ℕ)
      → Writes endian c all
      → Leaves all (sized c size)
  sized-Writes c all size w =
      if-either (Leaves all) (ltb max_payload_bytes size) (λ large. do_disconnect-Writes c all w)
        (λ small.
          if-either (Leaves all) (size == 0) (λ empty. reading-Writes c all reads_header w)
            (λ more. reading-Writes c all (reads_payload size) w))

  pub header_of_read-Writes :
      (c : Connection) (all : List Text) (r : Option Text)
      → Writes endian c all
      → Leaves all (header_of_read endian c r)
  header_of_read-Writes c all none w = do_disconnect-Writes c all w
  header_of_read-Writes c all (some header) w =
      if-either (Leaves all) (not c.running) (λ off. do_disconnect-Writes c all w)
        (λ on. sized-Writes c all (payload_size endian header) w)

  pub payload_of_read-Writes :
      (c : Connection) (all : List Text) (r : Option Text)
      → Writes endian c all
      → Leaves all (payload_of_read c r)
  payload_of_read-Writes c all none w = do_disconnect-Writes c all w
  payload_of_read-Writes c all (some payload) w =
      if-either (Leaves all) (not c.running) (λ off. do_disconnect-Writes c all w)
        (λ on. reading-Writes c all reads_header w)
