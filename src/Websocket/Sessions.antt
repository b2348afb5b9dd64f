-- ===== src/Websocket/Sessions.antt =====
-- websocket/client.go: what holds of a client after any calls.
use public_golibs.Common.{Option, none, some, List}
use public_golibs.Websocket.Config.{Config}
use public_golibs.Websocket.Client.{Client, Socket, Heart, fresh}
use public_golibs.Websocket.Frames.{end_heart, end_on, without_heart}
use public_golibs.Websocket.Wellformed.{
  Live, IsValid, write_message-IsValid, connect_context-IsValid, close_with_reason-IsValid,
}
use public_golibs.Websocket.Calls.{Op, run_ops, IsKept, run_ops-kept}

Live-end : (o : Option Socket) (hs ks : List Heart) → Live o (some hs) → Live o (some ks)
Live-end none hs ks l = l
Live-end (some s) hs ks l = l

end_on-IsValid :
    (h : Heart) (b : Option (List Heart)) (c : Client)
    → Live c.conn b
    → IsValid c
    → IsValid (end_on h b c)
end_on-IsValid h none c l v = v
end_on-IsValid h (some hs) c l v = record {
  live = Live-end c.conn hs (without_heart h hs) l;
  all_gone = v.all_gone;
}

abbrev Stays : Client → Client → Type 0
Stays c d = IsValid c → IsValid d

Stays-IsKept : IsKept Stays
unfolding end_heart
Stays-IsKept = record {
  kept_none = λ c v. v;
  kept_both = λ c d e f g v. g (f v);
  kept_connect = connect_context-IsValid;
  kept_close = close_with_reason-IsValid;
  kept_write = write_message-IsValid;
  kept_end = λ h c v. end_on-IsValid h c.background c v.live v;
}

-- After any calls of a new client, with any answers of the network: the heartbeats have their stop
-- channel exactly while there is a connection, the connection is open and was sent no close frame, and
-- all connections given up are closed and were sent no frame after a close frame.
pub run_ops-IsValid : (cfg : Config) (ops : List Op) → IsValid (run_ops ops (fresh cfg))
run_ops-IsValid cfg ops =
    run_ops-kept Stays Stays-IsKept ops (fresh cfg) (record { live = tt; all_gone = tt })
