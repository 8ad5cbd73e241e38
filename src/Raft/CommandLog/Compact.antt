-- ===== src/Raft/CommandLog/Compact.antt =====
-- Compaction of the in-memory log: `CompactUpTo` inside the log, and through its end.
use maxredis.Base.{
  suc, ◌+◌, ◌-◌, ◌≤◌, ◌<◌, ◌≡◌, refl, ◌∙◌, ap, some, [], arith, length, drop, get_elem?-drop,
  length-drop,
}
use maxredis.Raft.Types.{LogIndex, LogEntry}
use maxredis.Raft.CommandLog.{CommandLog, last_index, get, append, compact_up_to}
use maxredis.Raft.CommandLog.Laws.{IsValid, last_index_lem, get_lem}

module _ (l : CommandLog) (k : LogIndex) (v : IsValid l) (low : l.base_index < k) where
  compact_inside :
      k < last_index l
      → ((compact_up_to l k).base_index ≡ k)
        × ((compact_up_to l k).tail ≡ drop (k - l.base_index) l.tail)
  unfolding compact_up_to
  compact_inside h =
      let e : k - l.base_index + 1 ≡ suc (k - l.base_index) = omega arith in
      ground (arith, last_index_lem l v)

  length-compact :
      k < last_index l → length (compact_up_to l k).tail ≡ length l.tail - (k - l.base_index)
  length-compact h = ap length (compact_inside h).1 ∙ length-drop (k - l.base_index) l.tail

  pub compact-IsValid : k < last_index l → IsValid (compact_up_to l k)
  compact-IsValid h = record {
    floor_zero = λ z. absurd (omega (arith, length-compact h, last_index_lem l v));
    indexed = λ j e x.
        let (base, tail) = compact_inside h in
        ground
          (arith, get_elem?-drop (k - l.base_index) j l.tail, v.indexed (k - l.base_index + j) e);
  }

  pub last-compact : k < last_index l → last_index (compact_up_to l k) ≡ last_index l
  last-compact h = omega (
    arith,
    last_index_lem l v,
    last_index_lem (compact_up_to l k) (compact-IsValid h),
    length-compact h,
    (compact_inside h).0,
  )

  pub get-compact : (i : LogIndex) → k < last_index l → k < i → get (compact_up_to l k) i ≡ get l i
  get-compact i h above =
      let (base, tail) = compact_inside h in
      let e : k - l.base_index + (i - k - 1) ≡ i - l.base_index - 1 = omega arith in
      ground (
        arith,
        get_lem l i v (omega arith),
        get_lem (compact_up_to l k) i (compact-IsValid h) (omega arith),
        get_elem?-drop (k - l.base_index) (i - k - 1) l.tail,
      )

  -- A compaction inside the log keeps it well formed: its first entry is the one behind `k`, its
  -- last index is the same, and so are the entries behind `k`.
  pub compact_up_to_lem :
      k < last_index l
      → IsValid (compact_up_to l k)
        × ((compact_up_to l k).base_index ≡ k)
        × (last_index (compact_up_to l k) ≡ last_index l)
        × ((i : LogIndex) → k < i → get (compact_up_to l k) i ≡ get l i)
  compact_up_to_lem h =
      (compact-IsValid h, (compact_inside h).0, last-compact h, λ i above. get-compact i h above)

  compact_all : last_index l ≤ k → compact_up_to l k ≡ record l { base_index = k; tail = [] }
  unfolding compact_up_to
  compact_all h = ground arith

  stored_behind :
      (e : LogEntry)
      → get (append (record l { base_index = k; tail = [] }) e) (suc k)
        ≡ some (record e { index = 1 })
  unfolding get append last_index
  stored_behind e = let at : suc k - k ≡ 1 = omega arith in rw at (ground arith)

  last_cleared : last_index (record l { base_index = k; tail = [] }) ≡ 0
  unfolding last_index
  last_cleared = refl

  -- A compaction that takes every entry forgets where the log ended: the last index is 0, and the
  -- next entry is stored behind `k` with the index 1.
  pub append_behind_full_compaction :
      (e : LogEntry)
      → last_index l ≤ k
      → (last_index (compact_up_to l k) ≡ 0)
        × (get (append (compact_up_to l k) e) (suc k) ≡ some (record e { index = 1 }))
  append_behind_full_compaction e h = (
    ap last_index (compact_all h) ∙ last_cleared,
    ap (λ z. get (append z e) (suc k)) (compact_all h) ∙ stored_behind e,
  )
