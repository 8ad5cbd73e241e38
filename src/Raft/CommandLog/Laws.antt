-- ===== src/Raft/CommandLog/Laws.antt =====
-- `CommandLog` keeps the laws of `ILogStorage`.
use maxredis.Base.{
  Bool-cases, leb→le, ℕ, suc, ◌^◌, ◌+◌, ◌-◌, ◌≤◌, ◌<◌, ◌≡◌, refl, ◌∙◌, ◌⊎◌, inl, inr, ◌&&◌, ◌||◌,
  none, some, List, [], ◌∷◌, ◌++◌, min, arith, ltb, leb, ◌==◌, if◌then◌else◌, length, is_empty,
  get_elem?, take, drop, length-append, length-take, get_elem?-take, get_elem?-drop, get_elem?-none,
  get_elem?-some, get_elem?-snoc, resize-eq-take,
}
use maxredis.Raft.Types.{LogIndex, LogEntry, default_entry}
use maxredis.Raft.LogStorage.{LogLaws, term_of}
use maxredis.Raft.CommandLog.{
  CommandLog, last_index, first_index, get, get_term, append, get_range, range_end, truncate_from,
  storage,
}

-- Every entry stands at its index, and a compacted log is not empty.
pub record IsValid (l : CommandLog) : Type 0 where
  pub floor_zero : length l.tail ≡ 0 → l.base_index ≡ 0
  pub indexed :
      (j : ℕ) (e : LogEntry) → get_elem? l.tail j ≡ some e → e.index ≡ suc (l.base_index + j)

is_empty-length {ℓ} : {A : Type ℓ} (xs : List A) → is_empty xs ≡ (length xs == 0)
is_empty-length [] = ground arith
is_empty-length (x ∷ xs) = ground arith

pub last_index_lem : (l : CommandLog) → IsValid l → last_index l ≡ l.base_index + length l.tail
unfolding last_index
last_index_lem l v = ground (arith, is_empty-length l.tail, v.floor_zero)

pub get_lem :
    (l : CommandLog) (i : LogIndex)
    → IsValid l
    → l.base_index < i
    → get l i ≡ get_elem? l.tail (i - l.base_index - 1)
unfolding get
get_lem l i v h =
    let e : i - l.base_index ≡ suc (i - l.base_index - 1) = omega arith in
    rw e (ground (arith, last_index_lem l v, get_elem?-none l.tail (i - l.base_index - 1)))

get_floor : (l : CommandLog) → IsValid l → get l l.base_index ≡ some l.sentinel
unfolding get
get_floor l v =
    let e : l.base_index - l.base_index ≡ 0 = omega arith in
    rw e (ground (arith, last_index_lem l v))

get_below : (l : CommandLog) (i : LogIndex) → i < l.base_index → get l i ≡ none
unfolding get
get_below l i h = ground arith

pub get_above : (l : CommandLog) (i : LogIndex) → last_index l < i → get l i ≡ none
unfolding get
get_above l i h = ground arith

pub get_within :
    (l : CommandLog) (i : LogIndex)
    → IsValid l
    → l.base_index < i
    → i ≤ last_index l
    → (e : LogEntry) × (get l i ≡ some e) × (e.index ≡ i)
get_within l i v low high =
    let (e, here) =
      get_elem?-some l.tail (i - l.base_index - 1) (omega (arith, last_index_lem l v)) in
    (e, get_lem l i v low ∙ here, omega (arith, v.indexed (i - l.base_index - 1) e here))

module _ (l : CommandLog) (e : LogEntry) where
  pub floor-append : (append l e).base_index ≡ l.base_index
  unfolding append
  floor-append = refl

  pub anchor-append : (append l e).anchor ≡ l.anchor
  unfolding append
  anchor-append = refl

module _ (l : CommandLog) (e : LogEntry) (v : IsValid l) where
  pub last-append : last_index (append l e) ≡ suc (last_index l)
  unfolding append last_index
  last-append = ground (
    arith,
    v.floor_zero,
    is_empty-length l.tail,
    is_empty-length (l.tail ++ record e { index = last_index l + 1 } ∷ []),
    length-append l.tail (record e { index = last_index l + 1 } ∷ []),
  )

  pub append-IsValid : IsValid (append l e)
  unfolding append
  append-IsValid = record {
    floor_zero = λ h.
        absurd
          (omega (arith, h, length-append {0} l.tail (record e { index = last_index l + 1 } ∷ [])));
    indexed = λ j x. rw get_elem?-snoc (ground (arith, v.indexed j x, last_index_lem l v));
  }

  -- In a valid log an append stores the entry at the next index, with that index, and leaves every
  -- other index as it was.
  pub get-append :
      (i : LogIndex)
      → get (append l e) i ≡ (
          if i == suc (last_index l)
          then some (record e { index = suc (last_index l) })
          else get l i)
  unfolding append
  get-append i = ground (
    arith,
    get_below l i,
    get_below (append l e) i,
    get_floor l v,
    get_floor (append l e) append-IsValid,
    get_lem l i v,
    get_lem (append l e) i append-IsValid,
    last_index_lem l v,
    last-append,
    get_elem?-snoc l.tail (record e { index = last_index l + 1 }) (i - l.base_index - 1),
    get_elem?-none l.tail (i - l.base_index - 1),
  )

-- A cut inside the log, or anywhere in one that was never compacted.
abbrev pub CanCut : CommandLog → LogIndex → Type 0
CanCut l k = (l.base_index < k) ⊎ (l.base_index ≡ 0)

module _ (l : CommandLog) (k : LogIndex) where
  pub base-truncate : (truncate_from l k).base_index ≡ l.base_index
  unfolding truncate_from
  base-truncate = ground arith

  pub anchor-truncate : (truncate_from l k).anchor ≡ l.anchor
  unfolding truncate_from
  anchor-truncate = ground arith

  sentinel-truncate : (truncate_from l k).sentinel ≡ l.sentinel
  unfolding truncate_from
  sentinel-truncate = ground arith

module _ (l : CommandLog) (k : LogIndex) (v : IsValid l) (fits : k ≤ last_index l) where
  tail-truncate : (truncate_from l k).tail ≡ take (k - l.base_index) l.tail
  unfolding truncate_from
  tail-truncate = elim (Bool-cases (leb k l.base_index)) [
    | inl h ↦ let e : k - l.base_index ≡ 0 = omega (arith, leb→le k l.base_index h) in rw (e, h)
    | inr h ↦ rw h (resize-eq-take _ default_entry l.tail (omega (arith, last_index_lem l v)))
  ]

  length-truncate : length (truncate_from l k).tail ≡ k - l.base_index
  length-truncate =
      rw tail-truncate
        (omega (arith, length-take {0} (k - l.base_index) l.tail, last_index_lem l v))

module _ (l : CommandLog) (k : LogIndex) (v : IsValid l) (fits : k ≤ last_index l)
    (cut : CanCut l k) where
  pub truncate-IsValid : IsValid (truncate_from l k)
  truncate-IsValid = record {
    floor_zero = λ h. ground (arith, length-truncate l k v fits, base-truncate l k);
    indexed = λ j e x. ground (
      arith,
      tail-truncate l k v fits,
      base-truncate l k,
      get_elem?-take (k - l.base_index) j l.tail,
      v.indexed j e,
    );
  }

  pub last-truncate : last_index (truncate_from l k) ≡ k
  last-truncate = ground (
    arith,
    last_index_lem (truncate_from l k) truncate-IsValid,
    length-truncate l k v fits,
    base-truncate l k,
  )

  -- In a valid log a cut that is not below the compacted part keeps the entries up to the cut, and
  -- has none behind it.
  pub get-truncate :
      (i : LogIndex) → get (truncate_from l k) i ≡ (if leb i k then get l i else none)
  get-truncate i = ground (
    arith,
    get_below l i,
    get_below (truncate_from l k) i,
    get_floor l v,
    get_floor (truncate_from l k) truncate-IsValid,
    get_lem l i v,
    get_lem (truncate_from l k) i truncate-IsValid,
    get_above (truncate_from l k) i,
    last-truncate,
    base-truncate l k,
    sentinel-truncate l k,
    tail-truncate l k v fits,
    get_elem?-take (k - l.base_index) (i - l.base_index - 1) l.tail,
  )

pub get_term_lem :
    (l : CommandLog) (i : LogIndex)
    → get_term l i
      ≡ (if (i == l.anchor.index) && ltb 0 l.anchor.index then l.anchor.term else term_of (get l i))
unfolding get_term
get_term_lem l i = refl

abbrev range_length : CommandLog → LogIndex → ℕ → ℕ
range_length l start limit =
    let physical = start - l.base_index in
    (if limit == 0 then length l.tail + 1 else min (length l.tail + 1) (physical + limit))
    - physical

module _ (l : CommandLog) (start : LogIndex) (limit : ℕ) (v : IsValid l)
    (low : l.base_index < start) (high : start ≤ last_index l) (few : limit < 2 ^ 63) where
  get_range-eq :
      get_range l start limit
      ≡ take (range_length l start limit) (drop (start - l.base_index) (l.sentinel ∷ l.tail))
  unfolding get_range first_index range_end
  get_range-eq = ground (arith, few, is_empty-length l.tail, last_index_lem l v)

  -- In a valid log a range from an index of the log holds the entries from there on, one by one, as
  -- many as there are and as `limit` allows, if that is below 2^63.
  pub get_range_lem :
      (j : ℕ)
      → get_elem? (get_range l start limit) j
        ≡ (if (limit == 0) || ltb j limit then get l (start + j) else none)
  get_range_lem j =
      let e : start - l.base_index + j ≡ suc (start + j - l.base_index - 1) = omega arith in
      rw (get_range-eq, get_elem?-take, get_elem?-drop, e)
        (ground (
          arith,
          get_lem l (start + j) v,
          last_index_lem l v,
          get_elem?-none l.tail (start + j - l.base_index - 1),
        ))

-- The contract of `ILogStorage`, kept by the in-memory log.
abbrev pub laws : LogLaws storage
unfolding storage
laws = record {
  IsValid = IsValid;
  floor = λ l. l.base_index;
  anchor = λ l. l.anchor;
  get_above = get_above;
  get_within = get_within;
  get_term_lem = get_term_lem;
  last-append = last-append;
  get-append = λ l e i v. get-append l e v i;
  append-IsValid = append-IsValid;
  floor-append = floor-append;
  anchor-append = anchor-append;
  last-truncate = last-truncate;
  get-truncate = λ l k i v fits cut. get-truncate l k v fits cut i;
  truncate-IsValid = truncate-IsValid;
  floor-truncate = base-truncate;
  anchor-truncate = anchor-truncate;
  get_range_lem = λ l start limit j v low high few. get_range_lem l start limit v low high few j;
  flush_lem = λ l. refl;
}
