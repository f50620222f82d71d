-- ===== src/Hls/TransportStream/Ends.antt =====
-- That the loop over the packets of a transport stream ends (`getStartTimeFromTsSegment_` in
-- shaka/js/shaka-player.compiled.debug.js).
use shaka_player_embedded.Base.{
  leb, ltb, take, drop, inl, inr, ap, ℕ, zero, suc, ◌+◌, ◌-◌, ◌/◌, ◌%◌, ◌≤◌, ◌<◌, ◌≡◌, refl, ◌==◌,
  Bool, true, false, not, ◌||◌, Option, none, some, List, length, if◌then◌else◌, arith, Bool-cases,
}
use shaka_player_embedded.Binary.Reader.{
  Reader, Result, ok, throw, and_then, new, bytes_at, read_uint, rewind, seek, skip, skip_to, big,
  little, moved_to,
}
use shaka_player_embedded.Hls.TransportStream.{
  Packet, StartTime, after_with, get_start_time_from_ts_segment, next, or_sync, packet_at,
  read_packet, read_start, read_time, running, skip_field, sync_at, sync_next, time, unparsable,
  walk_packets,
}

-- A loop that has ended.
abbrev pub Ends : StartTime → Type 0
Ends running = ⊥
Ends _ = Unit

module _ (bs : List ℕ) where
  -- The reader of a result still reads the same bytes.
  abbrev Same : {A : Type 0} → Result (A × Reader) → Type 0
  Same (ok x) = x.1.bytes ≡ bs
  Same (throw e) = Unit

  abbrev SameReader : Result Reader → Type 0
  SameReader (ok r) = r.bytes ≡ bs
  SameReader (throw e) = Unit

  -- The reader at the next packet is in the view, behind `f`.
  abbrev Lands : ℕ → Result Packet → Type 0
  Lands f (ok (next r)) = (f < r.position) × (r.bytes ≡ bs) × (r.position < length bs)
  Lands f (ok (time t)) = Unit
  Lands f (ok unparsable) = Unit
  Lands f (throw e) = Unit

  abbrev At : ℕ → Result (Option Reader) → Type 0
  At f (ok (some r)) = (f < r.position) × (r.bytes ≡ bs) × (r.position < length bs)
  At f (ok none) = Unit
  At f (throw e) = Unit

  read_uint-Same : (n : ℕ) (r : Reader) → r.bytes ≡ bs → Same (read_uint n r)
  unfolding read_uint bytes_at
  read_uint-Same n r h = elim (Bool-cases (leb (r.position + n) (length r.bytes))) [
    | inl e ↦ rw e h
    | inr e ↦ rw e tt
  ]

  -- A byte at `p` that is read, and its sign.
  sync_in :
      (f k : ℕ) (r : Reader) (b : List ℕ)
      → r.bytes ≡ bs
      → f + suc k + 1 ≤ length bs
      → At f (
          if (if r.little_endian then little b else big 0 b) == 71
          then ok (some (moved_to (f + suc k + 1 - 1) r))
          else ok none)
  sync_in f k r b h l = elim (Bool-cases ((if r.little_endian then little b else big 0 b) == 71)) [
    | inl e ↦ rw e (omega arith, h, omega arith)
    | inr e ↦ rw e tt
  ]

  sync_at-At : (f k : ℕ) (r : Reader) → r.bytes ≡ bs → At f (sync_at (f + suc k) r)
  unfolding sync_at seek read_uint bytes_at rewind
  sync_at-At f k r h =
      ground (arith, sync_in f k r (take 1 (drop (f + suc k) r.bytes)), ap length h)

  or_sync-At :
      (f : ℕ) (x : Result (Option Reader)) (o : Option Reader)
      → At f x
      → At f (ok o)
      → At f (or_sync x o)
  or_sync-At f x none h k = h
  or_sync-At f x (some r) h k = k

  bind-At :
      (f : ℕ) (x : Result (Option Reader)) (k : Option Reader → Result Packet)
      → At f x
      → ((o : Option Reader) → At f (ok o) → Lands f (k o))
      → Lands f (and_then x k)
  bind-At f (throw e) k h n = tt
  bind-At f (ok o) k h n = n o h

  bind-Same :
      {A : Type 0} (f : ℕ) (x : Result (A × Reader)) (k : A × Reader → Result Packet)
      → Same x
      → ((a : A × Reader) → a.1.bytes ≡ bs → Lands f (k a))
      → Lands f (and_then x k)
  bind-Same f (throw e) k h n = tt
  bind-Same f (ok a) k h n = n a h

  packet_at-Lands : (f : ℕ) (o : Option Reader) → At f (ok o) → Lands f (ok (packet_at o))
  packet_at-Lands f none h = tt
  packet_at-Lands f (some r) h = h

  sync_next-Lands : (f : ℕ) (r : Reader) → r.bytes ≡ bs → Lands f (sync_next f r)
  unfolding sync_next
  sync_next-Lands f r h = bind-At f (sync_at (f + 188) r) _ (sync_at-At f 187 r h) (λ a ha.
      bind-At f (or_sync (sync_at (f + 192) r) a) _ (or_sync-At f _ a (sync_at-At f 191 r h) ha)
        (λ b hb.
          bind-At f (or_sync (sync_at (f + 204) r) b) _ (or_sync-At f _ b (sync_at-At f 203 r h) hb)
            (packet_at-Lands f)))

  skip-Same : (n : ℕ) (r : Reader) → r.bytes ≡ bs → SameReader (skip n r)
  unfolding skip skip_to
  skip-Same n r h = elim (Bool-cases (ltb (length r.bytes) (r.position + n))) [
    | inl e ↦ rw e tt
    | inr e ↦ rw e h
  ]

  skip_field-Same : (b : Bool) (r : Reader) → r.bytes ≡ bs → SameReader (skip_field b r)
  skip_field-Same false r h = h
  skip_field-Same true r h = skipped (read_uint 1 r) (read_uint-Same 1 r h)
    where
      skipped : (x : Result (ℕ × Reader)) → Same x → SameReader (and_then x (λ y. skip y.0 y.1))
      skipped (throw e) k = tt
      skipped (ok y) k = skip-Same y.0 y.1 k

  bind-SameReader :
      (f : ℕ) (x : Result Reader) (k : Reader → Result Packet)
      → SameReader x
      → ((r : Reader) → r.bytes ≡ bs → Lands f (k r))
      → Lands f (and_then x k)
  bind-SameReader f (throw e) k h n = tt
  bind-SameReader f (ok r) k h n = n r h

  if-Lands :
      (f : ℕ) (b : Bool) (x y : Result Packet)
      → Lands f x
      → Lands f y
      → Lands f (if b then x else y)
  if-Lands f true x y h k = h
  if-Lands f false x y h k = k

  read_time-Lands : (f : ℕ) (r : Reader) → r.bytes ≡ bs → Lands f (read_time r)
  unfolding read_time
  read_time-Lands f r h = bind-SameReader f (skip 3 r) _ (skip-Same 3 r h) (λ r1 h1.
      bind-Same f (read_uint 1 r1) _ (read_uint-Same 1 r1 h1) (λ flags hf.
        if-Lands f (flags.0 / 64 == 0 || flags.0 / 64 == 1) _ _ tt (
          bind-Same f (read_uint 1 flags.1) _ (read_uint-Same 1 flags.1 hf) (λ size hs.
            if-Lands f (size.0 == 0) _ _ tt (
              bind-Same f (read_uint 1 size.1) _ (read_uint-Same 1 size.1 hs) (λ c hc.
                bind-Same f (read_uint 2 c.1) _ (read_uint-Same 2 c.1 hc) (λ t ht.
                  bind-Same f (read_uint 2 t.1) _ (read_uint-Same 2 t.1 ht) (λ k hk. tt))))))))

  read_start-Lands : (f : ℕ) (r : Reader) → r.bytes ≡ bs → Lands f (read_start f r)
  unfolding read_start
  read_start-Lands f r h = bind-Same f (read_uint 1 r) _ (read_uint-Same 1 r h) (λ field hf.
      if-Lands f (field.0 / 16 % 4 == 0 || field.0 / 16 % 4 == 2) _ _ tt (
        bind-SameReader f (skip_field (field.0 / 16 % 4 == 3) field.1) _
          (skip_field-Same (field.0 / 16 % 4 == 3) field.1 hf)
          (λ r2 h2. bind-Same f (read_uint 4 r2) _ (read_uint-Same 4 r2 h2) (λ code hc.
            if-Lands f (code.0 / 256 == 1) _ _ (read_time-Lands f code.1 hc)
              (sync_next-Lands f code.1 hc)))))

  read_packet-Lands : (r : Reader) → r.bytes ≡ bs → Lands r.position (read_packet r)
  unfolding read_packet
  read_packet-Lands r h = bind-Same r.position (read_uint 1 r) _ (read_uint-Same 1 r h) (λ g hg.
      if-Lands r.position (not (g.0 == 71)) _ _ tt (
        bind-Same r.position (read_uint 2 g.1) _ (read_uint-Same 2 g.1 hg) (λ t ht.
          if-Lands r.position (t.0 % 8192 == 8191) _ _ (sync_next-Lands r.position t.1 ht) (
            if-Lands r.position (t.0 / 16384 % 2 == 1) _ _ (read_start-Lands r.position t.1 ht)
              (sync_next-Lands r.position t.1 ht)))))

  -- What follows a packet ends, if the walk from each packet that it may lead to does.
  after_packet :
      (f : ℕ) (x : Result Packet) (walk : Reader → StartTime)
      → Lands f x
      → ((r : Reader)
          → (f < r.position) × (r.bytes ≡ bs) × (r.position < length bs)
          → Ends (walk r))
      → Ends (after_with walk x)
  after_packet f (throw e) walk n rest = tt
  after_packet f (ok (time t)) walk n rest = tt
  after_packet f (ok unparsable) walk n rest = tt
  after_packet f (ok (next r)) walk n rest = rest r n

  walk_packets-Ends :
      (fuel : ℕ) (r : Reader)
      → r.bytes ≡ bs
      → length bs < fuel + r.position
      → 0 < fuel
      → Ends (walk_packets fuel r)
  unfolding walk_packets
  walk_packets-Ends zero r h l k = absurd (omega arith)
  walk_packets-Ends (suc fuel) r h l k =
      after_packet r.position (read_packet r) (walk_packets fuel) (read_packet-Lands r h)
        (λ r' n. walk_packets-Ends fuel r' n.1 (omega (arith, n.0, n.2)) (omega (arith, n.0, n.2)))

-- Whatever the bytes of a segment are, the loop over its packets ends: with a time, with an error of
-- its own or with one of the reader. Its fuel, one unit for each byte and one, does not run out.
pub get_start_time_from_ts_segment-Ends : (bs : List ℕ) → Ends (get_start_time_from_ts_segment bs)
unfolding get_start_time_from_ts_segment new
get_start_time_from_ts_segment-Ends bs =
    walk_packets-Ends bs (suc (length bs)) (new bs false) refl (omega arith) (omega arith)
