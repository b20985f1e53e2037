-- ===== src/Client/Queues.antt =====
-- imap/queue.go: a client's handle to a queue. Each call executes one queue operation on the owner of the
-- queue's name.
use medusa.Base.{ℕ, [], Bytes, Option, bytes_of}
use medusa.Queue.{queue_map, decode_i64, decode_queue_item}
use medusa.Wal.{Codec, Disk}
use medusa.Service.Handle.{Message, Reply}
use medusa.Client.{Tried, done, failed_with, World, client_execute}

-- What a call returns, decoded
abbrev pub decoded : {A : Type 0} → (Bytes → A) → Tried Bytes → Tried A
decoded read (failed_with e) = failed_with e
decoded read (done out) = done (read out)

module _ {Net : Type 0} (send : Net → Bytes → Message → Option Reply × Net) (c : Codec)
    (now sent_at : ℕ) (disk : ℕ → Disk) where
  -- `Offer`: the new size
  unfoldable pub client_offer : Bytes → Bytes → World send → Tried ℕ × World send
  unfolding client_execute decode_i64
  client_offer queue item w =
      let (t, w') =
        client_execute send c now sent_at disk queue_map queue (bytes_of "queueoffer") item w in
      (decoded decode_i64 t, w')

  -- `Poll`
  unfoldable pub client_poll : Bytes → World send → Tried (Option Bytes) × World send
  unfolding client_execute decode_queue_item
  client_poll queue w =
      let (t, w') =
        client_execute send c now sent_at disk queue_map queue (bytes_of "queuepoll") [] w in
      (decoded decode_queue_item t, w')

  -- `Peek`
  unfoldable pub client_peek : Bytes → World send → Tried (Option Bytes) × World send
  unfolding client_execute decode_queue_item
  client_peek queue w =
      let (t, w') =
        client_execute send c now sent_at disk queue_map queue (bytes_of "queuepeek") [] w in
      (decoded decode_queue_item t, w')

  -- `Queue.Size`
  unfoldable pub client_queue_size : Bytes → World send → Tried ℕ × World send
  unfolding client_execute decode_i64
  client_queue_size queue w =
      let (t, w') =
        client_execute send c now sent_at disk queue_map queue (bytes_of "queuesize") [] w in
      (decoded decode_i64 t, w')
