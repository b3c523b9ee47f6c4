-- ===== src/Store/Bounded/Laws.antt =====
-- src/store.rs: what a bounded write leaves under the key of its record.
use pccs_rs.Common.{
  ℕ, ◌+◌, ◌-◌, ◌^◌, ◌<◌, ◌≡◌, refl, sym, subst, Bool, true, false, not, ◌&&◌, ◌||◌, List, [], ◌∷◌,
  ◌++◌, Option, none, some, ◌==◌, ltb, length, drop, arith, Bool-cases, Option-cases, inl, inr,
}
use pccs_rs.Common.Result.{ok, >>=-eq-ok, ok_or, Result-cases}
use pccs_rs.Common.Result.Laws.{ok-injective}
use pccs_rs.Common.Text.{Text, codes, text_eq, text_eq_iff}
use pccs_rs.Errors.{internal_error}
use pccs_rs.Keys
use pccs_rs.Validate.Strings.{strip_prefix}
use pccs_rs.Store.Database.{Database, Reliable, Codec, RoundTrips, Op, put, delete, after}
use pccs_rs.Store.Records.{NvidiaOcspRecord, Formats}
use pccs_rs.Store.Exec.{read_json}
use pccs_rs.Store.Exec.Laws.{after-append}
use pccs_rs.Store.Scans.{starts_with}
use pccs_rs.Store.Reads.{get_nvidia_ocsp}
use pccs_rs.Store.Bounded.{
  evict, superseded, evictions, bounded_batch, put_bounded, put_nvidia_ocsp, fifo_pos_key,
  fifo_order_key, fifo_order_prefix, fifo_count_key, next_written_at, readthrough_count,
  to_be_bytes,
}

-- Times of writes do not repeat while they fit 64 bits.
pub next_written_at-gt : (now last : ℕ) → last + 1 < 2 ^ 64 → last < next_written_at now last
unfolding next_written_at
next_written_at-gt now last h = ground arith

-- A batch does not touch a key.
abbrev spares : Text → List Op → Bool
spares key [] = true
spares key (put k v ∷ ops) = not (text_eq k key) && spares key ops
spares key (delete k ∷ ops) = not (text_eq k key) && spares key ops

after-spares :
    (key : Text) (ops : List Op) (old : Option Text)
    → spares key ops ≡ true
    → after ops key old ≡ old
after-spares key [] old h = refl
after-spares key (put k v ∷ ops) old h = ground (arith, after-spares key ops old)
after-spares key (delete k ∷ ops) old h = ground (arith, after-spares key ops old)

spares-append :
    (key : Text) (ops more : List Op)
    → spares key (ops ++ more) ≡ (spares key ops && spares key more)
spares-append key [] more = refl
spares-append key (put k v ∷ ops) more = ground (arith, spares-append key ops more)
spares-append key (delete k ∷ ops) more = ground (arith, spares-append key ops more)

-- A text with a prefix is not one without.
prefixed : (p s t : Text) → starts_with p t ≡ false → text_eq (p ++ s) t ≡ false
unfolding strip_prefix
prefixed [] s t h = absurd (ground arith)
prefixed (a ∷ p) s [] h = refl
prefixed (a ∷ p) s (b ∷ t) h = ground (arith, prefixed p s t)

differs : (p k t : Text) → starts_with p k ≡ true → starts_with p t ≡ false → text_eq k t ≡ false
differs p k t h n = ground (arith, text_eq_iff k t)

-- No eviction touches the entry that is written.
evict-spares :
    (prefix entry : Text) (excess count : ℕ) (rows : List (Option (Text × Text))) (ops : List Op)
    (left : ℕ)
    → starts_with prefix entry ≡ false
    → starts_with (codes "fifo-pos/") entry ≡ false
    → evict prefix entry excess count rows ≡ ok (ops, left)
    → spares entry ops ≡ true
unfolding evict fifo_pos_key
evict-spares prefix entry excess count [] ops left n m h = ground arith
evict-spares prefix entry excess count (none ∷ rows) ops left n m h = absurd (ground arith)
evict-spares prefix entry excess count (some (order_key, v) ∷ rows) ops left n m h =
    elim (Bool-cases (excess == 0 || not (starts_with prefix order_key))) [
      | inl stop ↦ ground arith
      | inr on ↦ elim (Bool-cases (ltb (length order_key) (length prefix + 8))) [
        | inl short ↦ evict-spares prefix entry excess count rows ops left n m (ground arith)
        | inr long ↦ elim (Bool-cases (text_eq (drop (length prefix + 8) order_key) entry)) [
          | inl own ↦ evict-spares prefix entry excess count rows ops left n m (ground arith)
          | inr other ↦ elim (Result-cases (evict prefix entry (excess - 1) (count - 1) rows)) [
            | inl (out, more) ↦ ground (
              arith,
              evict-spares prefix entry (excess - 1) (count - 1) rows out.0 out.1 n m more,
              prefixed (codes "fifo-pos/") (drop (length prefix + 8) order_key) entry m,
              differs prefix order_key entry,
            )
            | inr (inl (e, bad)) ↦ absurd (ground arith)
            | inr (inr broken) ↦ absurd (ground arith)
          ]
        ]
      ]
    ]

longer : (p q t : Text) → starts_with p t ≡ false → starts_with (p ++ q) t ≡ false
unfolding strip_prefix
longer [] q t h = absurd (ground arith)
longer (a ∷ p) q [] h = refl
longer (a ∷ p) q (b ∷ t) h = ground (arith, longer p q t)

order_key-differs :
    (kind entry : Text) (at : ℕ)
    → starts_with (fifo_order_prefix kind) entry ≡ false
    → text_eq (fifo_order_key kind at entry) entry ≡ false
unfolding fifo_order_key
order_key-differs kind entry at n =
    prefixed (fifo_order_prefix kind) (to_be_bytes at ++ entry) entry n

evictions-spares :
    (D : Database) (kind entry : Text) (max count : ℕ) (s : D.State) (ops : List Op) (left : ℕ)
    → starts_with (fifo_order_prefix kind) entry ≡ false
    → starts_with (codes "fifo-pos/") entry ≡ false
    → evictions D kind entry max count s ≡ ok (ops, left)
    → spares entry ops ≡ true
evictions-spares D kind entry max count s ops left n m h = ground (
  arith,
  evict-spares (fifo_order_prefix kind) entry (count - max) count
      (D.iterator s (fifo_order_prefix kind)) ops left n m,
)

-- What an operation spares that follows a put.
after-put-spares :
    (key bytes : Text) (front back : List Op) (old : Option Text)
    → spares key back ≡ true
    → after (front ++ put key bytes ∷ back) key old ≡ some bytes
after-put-spares key bytes front back old h = ground (
  arith,
  after-append front (put key bytes ∷ back) key old,
  text_eq_iff key key,
  after-spares key back (some bytes) h,
)

module _ (D : Database) where
  -- A batch that was made puts the entry and touches it nowhere after that.
  bounded_batch-inv :
      (kind entry bytes : Text) (written_at max : ℕ) (s : D.State) (ops : List Op)
      → starts_with (codes "fifo") entry ≡ false
      → bounded_batch D kind entry bytes written_at max s ≡ ok ops
      → (front back : List Op) × (ops ≡ front ++ put entry bytes ∷ back)
        × (spares entry back ≡ true)
  unfolding bounded_batch fifo_pos_key fifo_order_prefix fifo_count_key
  bounded_batch-inv kind entry bytes written_at max s ops n h =
      let order = longer (codes "fifo") (b'/' ∷ kind) entry n in
      let pos = longer (codes "fifo") (codes "-pos/") entry n in
      let (old, read, h1) = >>=-eq-ok (ok_or (D.get s (fifo_pos_key entry)) internal_error) _ h in
      let (front, count) = superseded kind entry (readthrough_count D kind s) old in
      let ((evicted, left), out, h2) = >>=-eq-ok (evictions D kind entry max count s) _ h1 in
      (
        front,
        put (fifo_pos_key entry) (to_be_bytes written_at)
            ∷ put (fifo_order_key kind written_at entry) []
            ∷ (evicted ++ put (fifo_count_key kind) (to_be_bytes left) ∷ []),
        sym (ok-injective h2),
        ground (
          arith,
          evictions-spares D kind entry max count s evicted left order pos out,
          spares-append entry evicted (put (fifo_count_key kind) (to_be_bytes left) ∷ []),
          order_key-differs kind entry written_at order,
          prefixed (codes "fifo-pos/") entry entry pos,
          prefixed (codes "fifo-count/") kind entry
              (longer (codes "fifo") (codes "-count/") entry n),
        ),
      )

  pub put_bounded-inv :
      {A : Type 0} (C : Codec A) (max now : ℕ) (kind entry : Text) (a : A) (s s' : D.State)
      (last last' : ℕ)
      → starts_with (codes "fifo") entry ≡ false
      → put_bounded D C max now kind entry a (s, last) ≡ (ok tt, (s', last'))
      → (bytes : Text) × (front back : List Op) × (C.to_vec a ≡ some bytes)
        × (D.write s (front ++ put entry bytes ∷ back) ≡ some s')
        × (spares entry back ≡ true)
  unfolding put_bounded
  put_bounded-inv C max now kind entry a s s' last last' n h = elim (Option-cases (C.to_vec a)) [
    | inl out ↦ absurd (ground arith)
    | inr (bytes, made) ↦
        let written_at = next_written_at now last in
        elim (Result-cases (bounded_batch D kind entry bytes written_at max s)) [
          | inl (ops, done) ↦
              let (front, back, same, spared) =
                bounded_batch-inv kind entry bytes written_at max s ops n done in
              elim (Option-cases (D.write s ops)) [
                | inl out ↦ absurd (ground arith)
                | inr (t, wrote) ↦ (
                  bytes,
                  front,
                  back,
                  made,
                  subst (λ o. D.write s o ≡ some s') same (ground arith),
                  spared,
                )
              ]
          | inr (inl (e, bad)) ↦ absurd (ground arith)
          | inr (inr broken) ↦ absurd (ground arith)
        ]
  ]

pub read_json-written :
    (D : Database) (R : Reliable D) {A : Type 0} (C : Codec A) (key bytes : Text)
    (front back : List Op) (s s' : D.State)
    → spares key back ≡ true
    → D.write s (front ++ put key bytes ∷ back) ≡ some s'
    → read_json D C key s' ≡ C.from_slice bytes
unfolding read_json
read_json-written D R C key bytes front back s s' spared done = ground (
  arith,
  R.get-content s' key,
  R.content-write s s' (front ++ put key bytes ∷ back) key done,
  after-put-spares key bytes front back (R.content s key) spared,
)

module _ (D : Database) (R : Reliable D) {V : Type 0} (F : Formats V) where
  -- A response that was written to the bounded cache is found: no eviction that its write causes
  -- touches it, whatever the cap, the index and the clock are.
  pub get_nvidia_ocsp-put_nvidia_ocsp :
      (max now : ℕ) (rec : NvidiaOcspRecord) (s s' : D.State) (last last' : ℕ)
      → RoundTrips F.nvidia_ocsp
      → put_nvidia_ocsp D F max now rec (s, last) ≡ (ok tt, (s', last'))
      → get_nvidia_ocsp D F rec.cache_key s' ≡ some rec
  unfolding get_nvidia_ocsp put_nvidia_ocsp Keys.nvidia_ocsp strip_prefix
  get_nvidia_ocsp-put_nvidia_ocsp max now rec s s' last last' trips h =
      let key = Keys.nvidia_ocsp rec.cache_key in
      let (bytes, front, back, made, done, spared) =
        put_bounded-inv D F.nvidia_ocsp max now (codes "nvidia-ocsp/") key rec s s' last last' refl
          h in
      rw
        (
          read_json-written D R F.nvidia_ocsp key bytes front back s s' spared done,
          trips.back rec bytes made,
          (text_eq_iff rec.cache_key rec.cache_key).1 refl,
        )
        refl
