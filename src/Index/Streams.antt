-- ===== src/Index/Streams.antt =====
-- python/src/trlog/_index.py: `find_txn_blocks_for_stream` with and without streams, start and end.
use trlog.Prelude.{
  ℕ, ◌≤◌, ◌≡◌, List, [], ◌∷◌, arith, Bool, true, false, not, refl, Bool-cases, ◌⊎◌, inl, inr,
  Option, none, some,
}
use trlog.Wire.Reads.{All}
use trlog.Index.{TxnEntry, IndexBlock, has_stream_ids}
use trlog.Index.Find.{
  Any, Any-map, collect_sound, collect_complete, in_stream, find_txn_blocks_for_stream,
}

-- A bound that may be absent.
abbrev pub FromOn : Option ℕ → ℕ → Type 0
FromOn none e = Unit
FromOn (some start) e = start ≤ e

abbrev pub UpTo : Option ℕ → ℕ → Type 0
UpTo none s = Unit
UpTo (some end) s = s ≤ end

-- The entry is of the stream, or no entry of the index names one: and its times meet the bounds.
abbrev pub NoStream : TxnEntry → Type 0
NoStream (s, e, off, sid) = sid ≡ 0xFFFF_FFFF

abbrev pub OfStream : List TxnEntry → ℕ → ℕ → Type 0
OfStream entries stream sid = (sid ≡ stream) ⊎ All NoStream entries

abbrev pub Selected : List TxnEntry → ℕ → Option ℕ → Option ℕ → ℕ → TxnEntry → Type 0
Selected entries stream start end n (s, e, off, sid) =
    OfStream entries stream sid × FromOn start e × UpTo end s × (off ≡ n)

-- The code's test of the streams.
none_named : (xs : List TxnEntry) → has_stream_ids xs ≡ false → All NoStream xs
unfolding has_stream_ids
none_named [] h = tt
none_named ((s, e, off, sid) ∷ xs) h = (ground (arith, h), none_named xs (ground (arith, h)))

none_known : (xs : List TxnEntry) → All NoStream xs → has_stream_ids xs ≡ false
unfolding has_stream_ids
none_known [] h = refl
none_known ((s, e, off, sid) ∷ xs) (h, hs) = ground (arith, h, none_known xs hs)

abbrev Tested : Bool → ℕ → ℕ → Type 0
Tested true stream sid = sid ≡ stream
Tested false stream sid = Unit

Tested-OfStream :
    (xs : List TxnEntry) (stream sid : ℕ)
    → Tested (has_stream_ids xs) stream sid
    → OfStream xs stream sid
Tested-OfStream xs stream sid h = elim (Bool-cases (has_stream_ids xs)) [
  | inl known ↦ inl (rw known at h)
  | inr unknown ↦ inr (none_named xs unknown)
]

any_known : (known : Bool) (stream sid : ℕ) → sid ≡ stream → Tested known stream sid
any_known true stream sid h = h
any_known false stream sid h = tt

OfStream-Tested :
    (xs : List TxnEntry) (stream sid : ℕ)
    → OfStream xs stream sid
    → Tested (has_stream_ids xs) stream sid
OfStream-Tested xs stream sid (inl same) = any_known (has_stream_ids xs) stream sid same
OfStream-Tested xs stream sid (inr unknown) = rw (none_known xs unknown) tt

stream_of :
    (known : Bool) (stream s e off sid : ℕ) (start end : Option ℕ)
    → in_stream (not known) stream start end (s, e, off, sid) ≡ true
    → Tested known stream sid
unfolding in_stream
stream_of true stream s e off sid start end h = ground (arith, h)
stream_of false stream s e off sid start end h = tt

from_on :
    (known : Bool) (stream s e off sid : ℕ) (start end : Option ℕ)
    → in_stream (not known) stream start end (s, e, off, sid) ≡ true
    → FromOn start e
unfolding in_stream
from_on known stream s e off sid none end h = tt
from_on known stream s e off sid (some start) end h = ground (arith, h)

up_to :
    (known : Bool) (stream s e off sid : ℕ) (start end : Option ℕ)
    → in_stream (not known) stream start end (s, e, off, sid) ≡ true
    → UpTo end s
unfolding in_stream
up_to known stream s e off sid start none h = tt
up_to known stream s e off sid start (some end) h = ground (arith, h)

selected :
    (known : Bool) (stream s e off sid : ℕ) (start end : Option ℕ)
    → Tested known stream sid
    → FromOn start e
    → UpTo end s
    → in_stream (not known) stream start end (s, e, off, sid) ≡ true
unfolding in_stream
selected true stream s e off sid none none h f u = ground (arith, h)
selected true stream s e off sid none (some end) h f u = ground (arith, h, u)
selected true stream s e off sid (some start) none h f u = ground (arith, h, f)
selected true stream s e off sid (some start) (some end) h f u = ground (arith, h, f, u)
selected false stream s e off sid none none h f u = ground arith
selected false stream s e off sid none (some end) h f u = ground (arith, u)
selected false stream s e off sid (some start) none h f u = ground (arith, f)
selected false stream s e off sid (some start) (some end) h f u = ground (arith, f, u)

any_entry : (xs : List TxnEntry) → All (λ x. Unit {0}) xs
any_entry [] = tt
any_entry (x ∷ xs) = (tt, any_entry xs)

-- An offset is found for a stream exactly where an entry at that offset ends at the start or later
-- and starts at the end or earlier, as far as these are given, and is of the stream, or no entry of
-- the index has another stream id than 0xFFFFFFFF.
pub find_txn_blocks_for_stream_lem :
    (stream n : ℕ) (start end : Option ℕ) (b : IndexBlock)
    → (Any (λ m. m ≡ n) (find_txn_blocks_for_stream stream start end b)
        → Any (Selected b.txn_entries stream start end n) b.txn_entries)
      × (Any (Selected b.txn_entries stream start end n) b.txn_entries
          → Any (λ m. m ≡ n) (find_txn_blocks_for_stream stream start end b))
unfolding find_txn_blocks_for_stream
find_txn_blocks_for_stream_lem stream n start end b = (
  λ found.
      Any-map (λ x. Unit {0}) b.txn_entries (any_entry b.txn_entries)
        (λ (s, e, off, sid) u (q, o). (
          Tested-OfStream b.txn_entries stream sid (stream_of known stream s e off sid start end q),
          from_on known stream s e off sid start end q,
          up_to known stream s e off sid start end q,
          o,
        ))
        (collect_sound _ _ n b.txn_entries found),
  λ there. collect_complete _ _ n b.txn_entries (
      Any-map (λ x. Unit {0}) b.txn_entries (any_entry b.txn_entries)
        (λ (s, e, off, sid) u (h, f, t, o). (
          selected known stream s e off sid start end (OfStream-Tested b.txn_entries stream sid h) f
              t,
          o,
        ))
        there),
)
  where
    known : Bool
    known = has_stream_ids b.txn_entries
