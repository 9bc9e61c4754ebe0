-- ===== src/Hub/Sections/Reached.antt =====
-- Whom a delivery of internal/websocket/hub.go reaches, where the sends follow the snapshot.
use mathlib.Core.List.{Memᴰ}
use mathlib.Core.List.Memᴰ.{head, tail, append_left, append_right}
use osm_device_adapter.Prelude.{
  ℕ, String, Bool, true, false, Option, none, some, List, [], ◌∷◌, ◌++◌, ◌≡◌, refl, sym, ap, ◌∙◌,
  subst, arith, ltb, length, map, ◌==◌, ◌⊎◌, inl, inr, if◌then◌else◌, All, All-imp,
}
use osm_device_adapter.Hub.Messages.{Message}
use osm_device_adapter.Hub.Registry.{DeviceConn}
use osm_device_adapter.Hub.Registry.Tracking.{listed}
use osm_device_adapter.Hub.Delivery.{
  Queue, Queues, send_buffer_size, set_queue, try_send, stored, send_to, send_all, targets,
  deliver_to_channel,
}
use osm_device_adapter.Hub.Delivery.Targets.{sent_to, targets-listed}
use osm_device_adapter.Hub.Sections.{Section, section_run, new_maps}
use osm_device_adapter.Hub.Sections.Mapped.{section_run-IsMapped}

abbrev pub has_room : Queue → Bool
has_room q = ltb (length q.waiting) send_buffer_size

-- A send adds the message, or leaves the channel, which is full.
abbrev IsSent : Message → Queue → Queue → Type 0
IsSent msg q q' = (q'.waiting ≡ q.waiting ++ msg ∷ []) ⊎ ((q' ≡ q) × (has_room q ≡ false))

IsSent-cases :
    (msg : Message) (q q' : Queue) (closed room : Bool)
    → has_room q ≡ room
    → (if closed
        then none
        else if room
        then some (record { waiting = q.waiting ++ msg ∷ []; closed = false })
        else some q)
      ≡ some q'
    → IsSent msg q q'
IsSent-cases msg q q' true room e h = cc
IsSent-cases msg q q' false true e h =
    let same : (record { waiting = q.waiting ++ msg ∷ []; closed = false }) ≡ q' = cc in
    inl (ap (λ (x : Queue). x.waiting) (sym same))
IsSent-cases msg q q' false false e h = let same : q' ≡ q = cc in inr (same, e)

try_send-IsSent : (msg : Message) (q q' : Queue) → try_send msg q ≡ some q' → IsSent msg q q'
unfolding try_send
try_send-IsSent msg q q' h = IsSent-cases msg q q' q.closed (has_room q) refl h

IsSent-Mem :
    (msg m : Message) (q q' : Queue) → IsSent msg q q' → Memᴰ m q.waiting → Memᴰ m q'.waiting
IsSent-Mem msg m q q' (inl e) k = subst (Memᴰ m) (sym e) (append_left (msg ∷ []) k)
IsSent-Mem msg m q q' (inr (e, full)) k = subst (λ (x : Queue). Memᴰ m x.waiting) (sym e) k

stored-IsSent :
    (msg : Message) (dc : DeviceConn) (queues queues' : Queues) (o : Option Queue)
    → try_send msg (queues dc.id) ≡ o
    → stored dc.id queues o ≡ some queues'
    → (q : Queue) × (IsSent msg (queues dc.id) q × (queues' ≡ set_queue dc.id q queues))
stored-IsSent msg dc queues queues' none e h = cc
stored-IsSent msg dc queues queues' (some q) e h =
    let same : queues' ≡ set_queue dc.id q queues = cc in
    (q, (try_send-IsSent msg (queues dc.id) q e, same))

-- What one send does to the channels: it is the connection's own that changes.
record IsStep (msg : Message) (dc : DeviceConn) (queues queues' : Queues) : Type 0 where
  own : IsSent msg (queues dc.id) (queues' dc.id)
  others : (i : ℕ) → (queues' i ≡ queues i) ⊎ (i ≡ dc.id)

set_queue-IsStep :
    (msg : Message) (dc : DeviceConn) (queues : Queues) (q : Queue)
    → IsSent msg (queues dc.id) q
    → IsStep msg dc queues (set_queue dc.id q queues)
set_queue-IsStep msg dc queues q sent =
    let at : set_queue dc.id q queues dc.id ≡ q = ground arith in
    record {
      own = subst (IsSent msg (queues dc.id)) (sym at) sent;
      others = λ i. other i (i == dc.id) refl;
    }
  where
    other :
        (i : ℕ) (b : Bool)
        → (i == dc.id) ≡ b
        → ((if i == dc.id then q else queues i) ≡ queues i) ⊎ (i ≡ dc.id)
    other i true e = inr (ground (arith, e))
    other i false e = inl (rw e refl)

send_to-IsStep :
    (msg : Message) (dc : DeviceConn) (queues queues' : Queues)
    → send_to msg dc queues ≡ some queues'
    → IsStep msg dc queues queues'
send_to-IsStep msg dc queues queues' h =
    let (q, (sent, same)) =
      stored-IsSent msg dc queues queues' (try_send msg (queues dc.id)) refl h in
    subst (IsStep msg dc queues) (sym same) (set_queue-IsStep msg dc queues q sent)

IsStep-Mem :
    (msg m : Message) (dc : DeviceConn) (queues queues' : Queues) (i : ℕ)
    → IsStep msg dc queues queues'
    → Memᴰ m (queues i).waiting
    → Memᴰ m (queues' i).waiting
IsStep-Mem msg m dc queues queues' i v k = kept (v.others i)
  where
    kept : (queues' i ≡ queues i) ⊎ (i ≡ dc.id) → Memᴰ m (queues' i).waiting
    kept (inl e) = subst (λ (x : Queue). Memᴰ m x.waiting) (sym e) k
    kept (inr e) =
        subst (λ j. Memᴰ m (queues' j).waiting) (sym e)
          (IsSent-Mem msg m (queues dc.id) (queues' dc.id) v.own
            (subst (λ j. Memᴰ m (queues j).waiting) e k))

-- The message waits in the connection's channel, or the channel was full.
abbrev pub IsReached : Message → Queues → Queues → DeviceConn → Type 0
IsReached msg queues queues' dc =
    Memᴰ msg (queues' dc.id).waiting ⊎ (has_room (queues dc.id) ≡ false)

own-IsReached :
    (msg : Message) (dc : DeviceConn) (queues queues' : Queues)
    → IsSent msg (queues dc.id) (queues' dc.id)
    → IsReached msg queues queues' dc
own-IsReached msg dc queues queues' (inl e) =
    inl (subst (Memᴰ msg) (sym e) (append_right (queues dc.id).waiting (head refl)))
own-IsReached msg dc queues queues' (inr (e, full)) = inr full

abbrev pub conn_ids : List DeviceConn → List ℕ
conn_ids dcs = map (λ (dc : DeviceConn). dc.id) dcs

-- What a delivery does to the channels: each of its connections is reached, and no other channel is
-- touched.
record IsDelivered (msg : Message) (dcs : List DeviceConn) (queues queues' : Queues) : Type 0 where
  reached : All (IsReached msg queues queues') dcs
  untouched : (i : ℕ) → (queues' i ≡ queues i) ⊎ Memᴰ i (conn_ids dcs)
  keeps : (i : ℕ) (m : Message) → Memᴰ m (queues i).waiting → Memᴰ m (queues' i).waiting

module _ (msg : Message) (dc : DeviceConn) (queues between queues' : Queues)
    (v : IsStep msg dc queues between)
    (keeps : (i : ℕ) (m : Message) → Memᴰ m (between i).waiting → Memᴰ m (queues' i).waiting) where
  first-IsReached : IsReached msg queues between dc → IsReached msg queues queues' dc
  first-IsReached (inl k) = inl (keeps dc.id msg k)
  first-IsReached (inr full) = inr full

  later-IsReached :
      (x : DeviceConn) → IsReached msg between queues' x → IsReached msg queues queues' x
  later-IsReached x (inl k) = inl k
  later-IsReached x (inr full) = from (v.others x.id)
    where
      own : x.id ≡ dc.id → IsReached msg queues queues' dc → IsReached msg queues queues' x
      own e (inl k) = inl (subst (λ j. Memᴰ msg (queues' j).waiting) (sym e) k)
      own e (inr f) = inr (subst (λ j. has_room (queues j) ≡ false) (sym e) f)

      from : (between x.id ≡ queues x.id) ⊎ (x.id ≡ dc.id) → IsReached msg queues queues' x
      from (inl e) = inr (subst (λ (q : Queue). has_room q ≡ false) e full)
      from (inr e) = own e (first-IsReached (own-IsReached msg dc queues between v.own))

  step_untouched :
      (dcs : List DeviceConn) (i : ℕ)
      → (queues' i ≡ between i) ⊎ Memᴰ i (conn_ids dcs)
      → (between i ≡ queues i) ⊎ (i ≡ dc.id)
      → (queues' i ≡ queues i) ⊎ Memᴰ i (conn_ids (dc ∷ dcs))
  step_untouched dcs i (inr m) o = inr (tail m)
  step_untouched dcs i (inl e) (inl e') = inl (e ∙ e')
  step_untouched dcs i (inl e) (inr same) = inr (head same)

send_all_after :
    (msg : Message) (dcs : List DeviceConn) (o : Option Queues) (queues' : Queues)
    → elim o [ none ↦ none | some between ↦ send_all msg dcs between ] ≡ some queues'
    → (between : Queues) × ((o ≡ some between) × (send_all msg dcs between ≡ some queues'))
send_all_after msg dcs none queues' h = cc
send_all_after msg dcs (some between) queues' h = (between, (refl, h))

send_all-IsDelivered :
    (msg : Message) (dcs : List DeviceConn) (queues queues' : Queues)
    → send_all msg dcs queues ≡ some queues'
    → IsDelivered msg dcs queues queues'
send_all-IsDelivered msg [] queues queues' h =
    let same : queues' ≡ queues = cc in
    record {
      reached = tt;
      untouched = λ i. inl (ap (λ (q : Queues). q i) same);
      keeps = λ i m k. subst (λ (q : Queues). Memᴰ m (q i).waiting) (sym same) k;
    }
send_all-IsDelivered msg (dc ∷ dcs) queues queues' h =
    let (between, (sent, rest)) = send_all_after msg dcs (send_to msg dc queues) queues' h in
    let v = send_to-IsStep msg dc queues between sent in
    let w = send_all-IsDelivered msg dcs between queues' rest in
    record {
      reached = (
        first-IsReached msg dc queues between queues' v w.keeps
            (own-IsReached msg dc queues between v.own),
        All-imp dcs (later-IsReached msg dc queues between queues' v w.keeps) w.reached,
      );
      untouched = λ i.
          step_untouched msg dc queues between queues' v w.keeps dcs i (w.untouched i) (v.others i);
      keeps = λ i m k. w.keeps i m (IsStep-Mem msg m dc queues between i v k);
    }

-- After any interleaving of registrations and unregistrations, a delivery whose sends find no
-- channel closed: its connections are those of exactly the devices whose registered connection
-- lists the channel; each of them then has the message waiting, unless its buffer was full; and no
-- other connection's channel is changed.
pub section_run-IsReached :
    (ss : List Section) (key : String) (msg : Message) (queues queues' : Queues)
    → deliver_to_channel key msg (section_run new_maps ss).registry queues ≡ some queues'
    → All (IsReached msg queues queues') (targets key (section_run new_maps ss).registry)
      × ((i : ℕ)
          → (queues' i ≡ queues i)
            ⊎ Memᴰ i (conn_ids (targets key (section_run new_maps ss).registry)))
      × ((code : String)
          → sent_to code (targets key (section_run new_maps ss).registry)
            ≡ listed key code (section_run new_maps ss).registry.device_conns)
unfolding deliver_to_channel
section_run-IsReached ss key msg queues queues' done =
    let h = (section_run new_maps ss).registry in
    let v = section_run-IsMapped ss in
    let d = send_all-IsDelivered msg (targets key h) queues queues' done in
    (
      d.reached,
      d.untouched,
      λ code. targets-listed key code h v.consistent (λ c x here. (v.registered c x here).own_code),
    )
