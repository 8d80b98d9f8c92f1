-- ===== src/Logger/Tests.antt =====
-- A broker with one message in the queue.
use filedisk_server.Common.{arith, sym, ap, Bool, true, false, some, List, [], ◌∷◌, ◌++◌, ◌≡◌, refl}
use filedisk_server.Common.Runs.{Text}
use filedisk_server.Common.Text.{bytes_of}
use filedisk_server.Logger.{
  Amqp, Consumed, envelope, no_envelope, exception, looping, Laws, consume_rounds, start_logger,
}

-- The tags with a consumer, and the lines of the file.
record Broker : Type 0 where
  consumers : List Text
  messages : List Text
  lines : List Text

abbrev deliver : Broker → List Text → List Text → Consumed × Broker
deliver w [] ms = (exception, w)
deliver w (c ∷ cs) [] = (no_envelope, w)
deliver w (c ∷ cs) (m ∷ ms) = (envelope m, record w { messages = ms })

abbrev broker : Amqp Broker
broker = record {
  create = λ w. (some 1, record w { consumers = [] });
  consume = λ w ch tag. deliver w w.consumers w.messages;
  open_file = λ w. w;
  close_file = λ w. w;
  add_appender = λ w. w;
  info = λ w line. record w { lines = w.lines ++ (line ∷ []) };
}

abbrev waiting : Broker
waiting = record { consumers = []; messages = bytes_of "10.0.0.1" ∷ []; lines = [] }

abbrev has_any : List Text → Bool
has_any [] = false
has_any (c ∷ cs) = true

unheard :
    (w : Broker) → has_any w.consumers ≡ false → deliver w w.consumers w.messages ≡ (exception, w)
unheard w h = none_there w w.consumers h
  where
    none_there :
        (w : Broker) (cs : List Text)
        → has_any cs ≡ false
        → deliver w cs w.messages ≡ (exception, w)
    none_there w [] h = refl
    none_there w (c ∷ cs) h = ground (arith, h)

broker-Laws : Laws broker (λ w ch tag. has_any w.consumers) (λ w. w.lines)
broker-Laws = record {
  unmade = λ w w1 ch tag e. ap (λ p. has_any p.1.consumers) (sym e);
  unknown_tag = λ w ch tag h. unheard w h;
  opens = λ w ch tag. refl;
  appends = λ w ch tag. refl;
  silent_create = λ w. refl;
  silent_open = λ w. refl;
  silent_append = λ w. refl;
}

-- If somebody had made a consumer, the logger would write the message and go on.
heard :
    (λ (w : Broker).
        start_logger broker 2 (record { channel = 1; queue_name = []; is_running = false }) w)
      (record waiting { consumers = [] ∷ [] })
    ≡ looping (record { consumers = [] ∷ []; messages = []; lines = bytes_of "10.0.0.1" ∷ [] })
unfolding start_logger consume_rounds
heard = refl
