-- ===== src/Websocket/Wellformed.antt =====
-- websocket/client.go: calls in any order keep the connections and the heartbeats in order.
use public_golibs.Common.{
  ℕ, ◌≡◌, refl, true, false, Option, none, some, List, [], ◌∷◌, ◌++◌, Text, ◌⊎◌, inl, inr, All,
  All-append, Bool-cases,
}
use public_golibs.Common.Int.{ℤ, pos, ltb_ℤ}
use public_golibs.Websocket.Config.{Config}
use public_golibs.Websocket.Proxy.{ProxyError}
use public_golibs.Websocket.Client.{
  MessageType, text_message, binary_message, close_message, ping_message, pong_message, Message,
  Socket, Client, Heart, Lib, Dialer, wrote, close_with_reason, close_on, say_goodbye,
  connect_context, connect_on, dial_with, dialled, store, new_socket, start_background,
  stop_background, build_dialer, handshake_headers,
}
use public_golibs.Websocket.Frames.{write_message, write_on}

abbrev pub NotClose : MessageType → Type 0
NotClose text_message = Unit
NotClose binary_message = Unit
NotClose close_message = ⊥
NotClose ping_message = Unit
NotClose pong_message = Unit

-- No frame but the last is a close frame.
abbrev pub Ended : List Message → Type 0
Ended [] = Unit
Ended (m ∷ []) = Unit
Ended (m ∷ n ∷ ms) = NotClose m.kind × Ended (n ∷ ms)

abbrev pub IsGone : Socket → Type 0
IsGone s = (s.is_open ≡ false) × Ended s.sent

-- The heartbeats are there with a connection, which is open and was sent no close frame.
abbrev pub Live : Option Socket → Option (List Heart) → Type 0
Live none none = Unit
Live none (some hs) = ⊥
Live (some s) none = ⊥
Live (some s) (some hs) = (s.is_open ≡ true) × All (λ m. NotClose m.kind) s.sent

pub record IsValid (c : Client) : Type 0 where
  pub live : Live c.conn c.background
  pub all_gone : All IsGone c.gone

NotClose-Ended : (ms : List Message) → All (λ m. NotClose m.kind) ms → Ended ms
NotClose-Ended [] h = tt
NotClose-Ended (m ∷ []) h = tt
NotClose-Ended (m ∷ n ∷ ms) h = (h.0, NotClose-Ended (n ∷ ms) h.1)

append-Ended :
    (ms : List Message) (f : Message) → All (λ m. NotClose m.kind) ms → Ended (ms ++ f ∷ [])
append-Ended [] f h = tt
append-Ended (m ∷ []) f h = (h.0, tt)
append-Ended (m ∷ n ∷ ms) f h = (h.0, append-Ended (n ∷ ms) f h.1)

Live-wrote :
    (e : Option Text) (f : Message) (s : Socket) (b : Option (List Heart))
    → NotClose f.kind
    → Live (some s) b
    → Live (some (wrote e f s)) b
Live-wrote e f s none n h = h
Live-wrote none f s (some hs) n h =
    (h.0, All-append (λ m. NotClose m.kind) s.sent (f ∷ []) h.1 (n, tt))
Live-wrote (some e) f s (some hs) n h = h

write_on-IsValid :
    (lib : Lib) (f : Message) (o : Option Socket) (c : Client)
    → NotClose f.kind
    → Live o c.background
    → IsValid c
    → IsValid (write_on lib f o c).0
write_on-IsValid lib f none c n l v = v
write_on-IsValid lib f (some s) c n l v = record {
  live = Live-wrote (lib.write_error f) f s c.background n l;
  all_gone = v.all_gone;
}

pub write_message-IsValid :
    (lib : Lib) (kind : MessageType) (payload : List ℕ) (c : Client)
    → NotClose kind
    → IsValid c
    → IsValid (write_message lib kind payload c).0
unfolding write_message
write_message-IsValid lib kind payload c n v =
    write_on-IsValid lib (record { kind = kind; bytes = payload }) c.conn c n v.live v

store-IsValid :
    (s : Socket) (o : Option Socket) (c : Client)
    → s.is_open ≡ true
    → s.sent ≡ []
    → IsValid c
    → IsValid (store s o c).0
unfolding start_background
store-IsValid s none c e n v = record { live = (e, rw n tt); all_gone = v.all_gone }
store-IsValid s (some held) c e n v = record {
  live = v.live;
  all_gone = ((refl, rw n tt), v.all_gone);
}

dialled-IsValid :
    (r : Option (Text × Option Text)) (c : Client) → IsValid c → IsValid (dialled r c).0
dialled-IsValid none c v = store-IsValid (new_socket c.cfg) c.conn c refl refl v
dialled-IsValid (some (e, status)) c v = v

dial_with-IsValid :
    (lib : Lib) (d : Dialer ⊎ ProxyError) (c : Client) → IsValid c → IsValid (dial_with lib d c).0
dial_with-IsValid lib (inr e) c v = v
dial_with-IsValid lib (inl d) c v =
    dialled-IsValid (lib.dial d c.cfg.url (handshake_headers lib.canonical c.cfg)) c v

connect_on-IsValid :
    (lib : Lib) (o : Option Socket) (c : Client) → IsValid c → IsValid (connect_on lib o c).0
connect_on-IsValid lib (some s) c v = v
connect_on-IsValid lib none c v = dial_with-IsValid lib (build_dialer lib.urls c.cfg) c v

pub connect_context-IsValid :
    (lib : Lib) (c : Client) → IsValid c → IsValid (connect_context lib c).0
unfolding connect_context
connect_context-IsValid lib c v = connect_on-IsValid lib c.conn c v

wrote-Ended :
    (e : Option Text) (f : Message) (s : Socket)
    → All (λ m. NotClose m.kind) s.sent
    → Ended (wrote e f s).sent
wrote-Ended none f s h = append-Ended s.sent f h
wrote-Ended (some e) f s h = NotClose-Ended s.sent h

say_goodbye-Ended :
    (lib : Lib) (cfg : Config) (f : Message) (s : Socket)
    → All (λ m. NotClose m.kind) s.sent
    → Ended (say_goodbye lib cfg f s).0.sent
say_goodbye-Ended lib cfg f s h = elim (Bool-cases (ltb_ℤ (pos 0) cfg.close_timeout)) [
  | inl time ↦ simp (time) (wrote-Ended (lib.write_error f) f s h)
  | inr hurry ↦ simp (hurry) (NotClose-Ended s.sent h)
]

Live-spoken :
    (s : Socket) (b : Option (List Heart)) → Live (some s) b → All (λ m. NotClose m.kind) s.sent
Live-spoken s none l = absurd l
Live-spoken s (some hs) l = l.1

close_on-IsValid :
    (lib : Lib) (f : Message) (o : Option Socket) (c : Client)
    → c.conn ≡ o
    → IsValid c
    → IsValid (close_on lib f o (stop_background c)).0
unfolding stop_background
close_on-IsValid lib f none c e v = record { live = rw e tt; all_gone = v.all_gone }
close_on-IsValid lib f (some s) c e v =
    let spoken = Live-spoken s c.background (rw e at v.live) in
    record { live = tt; all_gone = ((refl, say_goodbye-Ended lib c.cfg f s spoken), v.all_gone) }

pub close_with_reason-IsValid :
    (lib : Lib) (code : ℤ) (reason : Text) (c : Client)
    → IsValid c
    → IsValid (close_with_reason lib code reason c).0
unfolding close_with_reason
close_with_reason-IsValid lib code reason c v =
    close_on-IsValid lib (record { kind = close_message; bytes = lib.close_payload code reason })
      c.conn c refl v
