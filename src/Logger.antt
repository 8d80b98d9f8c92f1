-- ===== src/Logger.antt =====
-- logger/Logger.cc. SimpleAmqpClient and log4cpp are the record `Amqp`.
pub mod Tests
use filedisk_server.Common.{
  ℕ, zero, suc, ◌+◌, ◌<◌, ◌≡◌, refl, sym, ap, ◌∙◌, Bool, true, false, Option, none, some, List,
  arith,
}
use filedisk_server.Common.Runs.{Text}

-- What `BasicConsumeMessage` gives: an envelope with its body, none, or an exception.
pub data Consumed : Type 0 where
  envelope : Text → Consumed
  no_envelope : Consumed
  exception : Consumed

-- `create` fails with an exception; `info` writes a line by the category "Filelog".
pub record Amqp (W : Type 0) : Type 0 where
  pub create : W → Option ℕ × W
  pub consume : W → ℕ → Text → Consumed × W
  pub open_file : W → W  -- the layout and the appender
  pub close_file : W → W
  pub add_appender : W → W
  pub info : W → Text → W

pub record Logger : Type 0 where
  pub channel : ℕ
  pub queue_name : Text
  pub is_running : Bool

-- How far `start` has come: it is still in its loop, or an exception has ended it.
pub data LogRun (W : Type 0) : Type 0 where
  looping : W → LogRun W
  thrown : W → LogRun W

module _ {W : Type 0} (k : Amqp W) where
  abbrev pub with_channel : Text → Option ℕ × W → Option Logger × W
  with_channel queue (none, w) = (none, w)
  with_channel queue (some ch, w) =
      (some (record { channel = ch; queue_name = queue; is_running = false }), k.open_file w)

  -- The constructor.
  unfoldable pub new_logger : Text → W → Option Logger × W
  new_logger queue w = with_channel queue (k.create w)

  -- The destructor, which deletes the appender and the layout.
  unfoldable pub delete_logger : Logger → W → W
  delete_logger l w = k.close_file w

  abbrev pub after_consume : (W → LogRun W) → Consumed × W → LogRun W
  after_consume go (envelope body, w) = go (k.info w body)
  after_consume go (no_envelope, w) = go w
  after_consume go (exception, w) = thrown w

  -- Rounds of `while (true)`.
  unfoldable pub consume_rounds : ℕ → Logger → W → LogRun W
  consume_rounds zero l w = looping w
  consume_rounds (suc n) l w =
      after_consume (consume_rounds n l) (k.consume w l.channel l.queue_name)

  -- `start`, seen after `n` rounds.
  unfoldable pub start_logger : ℕ → Logger → W → LogRun W
  unfolding consume_rounds
  start_logger n l w = consume_rounds n l (k.add_appender w)

-- `_isRunning==false` is a comparison, and its value is dropped.
unfoldable pub stop_logger : Logger → Logger
stop_logger l = l

-- What is documented: a channel consumes for a tag only after `BasicConsume` has made a consumer
-- with that tag, and nothing that the logger calls makes one.
pub record Laws {W : Type 0} (k : Amqp W) (has_consumer : W → ℕ → Text → Bool)
    (lines : W → List Text) : Type 0 where
  pub unmade :
      (w w1 : W) (ch : ℕ) (tag : Text) → k.create w ≡ (some ch, w1) → has_consumer w1 ch tag ≡ false
  pub unknown_tag :
      (w : W) (ch : ℕ) (tag : Text)
      → has_consumer w ch tag ≡ false
      → k.consume w ch tag ≡ (exception, w)
  pub opens :
      (w : W) (ch : ℕ) (tag : Text) → has_consumer (k.open_file w) ch tag ≡ has_consumer w ch tag
  pub appends :
      (w : W) (ch : ℕ) (tag : Text) → has_consumer (k.add_appender w) ch tag ≡ has_consumer w ch tag
  pub silent_create : (w : W) → lines (k.create w).1 ≡ lines w
  pub silent_open : (w : W) → lines (k.open_file w) ≡ lines w
  pub silent_append : (w : W) → lines (k.add_appender w) ≡ lines w

-- Once the broker is reached, the constructor makes a logger that writes no line: `start` ends with
-- an exception in its first round, whether `stop` was called before or not.
start_logger-new_logger :
    {W : Type 0} (k : Amqp W) (has_consumer : W → ℕ → Text → Bool) (lines : W → List Text)
    → Laws k has_consumer lines
    → (queue : Text) (w w1 : W) (ch n : ℕ) → k.create w ≡ (some ch, w1)
    → let l : Logger = record { channel = ch; queue_name = queue; is_running = false } in
      let w2 = k.open_file w1 in
      (new_logger k queue w ≡ (some l, w2))
      × (start_logger k (suc n) l w2 ≡ thrown (k.add_appender w2))
      × (start_logger k (suc n) (stop_logger l) w2 ≡ thrown (k.add_appender w2))
      × (lines (k.add_appender w2) ≡ lines w)
unfolding new_logger start_logger consume_rounds stop_logger
start_logger-new_logger {W} k has_consumer lines laws queue w w1 ch n e =
    (rw e refl, ends, ends, silent)
  where
    w3 : W
    w3 = k.add_appender (k.open_file w1)

    deaf : has_consumer w3 ch queue ≡ false
    deaf =
        laws.appends (k.open_file w1) ch queue
        ∙ laws.opens w1 ch queue
        ∙ laws.unmade w w1 ch queue e

    ends :
        consume_rounds k
          (suc n)
          (record { channel = ch; queue_name = queue; is_running = false })
          w3
        ≡ thrown w3
    ends = rw (laws.unknown_tag w3 ch queue deaf) refl

    silent : lines w3 ≡ lines w
    silent =
        laws.silent_append (k.open_file w1)
        ∙ laws.silent_open w1
        ∙ ap lines (sym (ap (λ p. p.1) e))
        ∙ laws.silent_create w
