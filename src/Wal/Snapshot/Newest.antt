-- ===== src/Wal/Snapshot/Newest.antt =====
-- crates/auction-wal/src/snapshot.rs: a snapshot that is written is the one that is found.
use dutch_auction.Base.{
  ℕ, zero, suc, ◌-◌, ◌≤◌, ◌<◌, ◌≡◌, refl, sym, ◌∙◌, ap, subst, arith, List, [], ◌∷◌, ◌++◌, some,
  true, false, length, length-append, length-take, ltb, ◌==◌, if_cases, take, take-all, drop-append,
  All,
}
use dutch_auction.Proto.Ids.{Seq}
use dutch_auction.Core.State.{AuctionState}
use dutch_auction.Wal.Record.{to_le_bytes, u32_max}
use dutch_auction.Wal.Record.Frame.{from_le_bytes-to_le_bytes}
use dutch_auction.Wal.Replay.{Snapshot}
use dutch_auction.Wal.Snapshot.{
  SnapshotCodec, SnapshotFile, wrote, put_file, seal, write, read, place_file, newest_first,
  first_usable, latest_usable, prune,
}

read-seal :
    (c : SnapshotCodec) (s : Snapshot) (body : List ℕ)
    → c.deserialize body ≡ some s
    → c.hash body ≤ u32_max
    → read c (seal c body) ≡ some s
unfolding read seal to_le_bytes
read-seal c s body back small =
    let tail : List ℕ = to_le_bytes (c.hash body) in
    let four : length tail ≡ 4 = refl in
    let long : length (body ++ tail) - 4 ≡ length body =
      omega (arith, length-append body tail, four) in
    let enough : ltb (length (body ++ tail)) 4 ≡ false =
      ground (arith, length-append body tail, four) in
    let ok : (c.hash body == c.hash body) ≡ true = ground arith in
    rw (enough, long, take-all body tail, drop-append body tail)
      (rw (from_le_bytes-to_le_bytes (c.hash body) small) (rw ok back))

place-newest :
    (f : SnapshotFile) (files : List SnapshotFile)
    → All (λ (g : SnapshotFile). g.0 < f.0) files
    → place_file f files ≡ f ∷ files
unfolding place_file
place-newest f [] h = refl
place-newest f (g ∷ files) h = let e : ltb g.0 f.0 ≡ true = ground (arith, h.0) in rw e refl

place-later :
    (f g : SnapshotFile) (files : List SnapshotFile)
    → g.0 < f.0
    → place_file g (f ∷ files) ≡ f ∷ place_file g files
unfolding place_file
place-later f g files h = let e : ltb f.0 g.0 ≡ false = ground arith in rw e refl

sorted-put :
    (seq : Seq) (bytes : List ℕ) (files : List SnapshotFile)
    → All (λ (g : SnapshotFile). g.0 < seq) files
    → newest_first (put_file seq bytes files) ≡ (seq, bytes) ∷ newest_first files
unfolding newest_first put_file place_file
sorted-put seq bytes [] h = refl
sorted-put seq bytes ((other, old) ∷ files) h =
    let apart : (other == seq) ≡ false = ground (arith, h.0) in
    rw apart (
      rw (sorted-put seq bytes files h.1)
        (place-later (seq, bytes) (other, old) (newest_first files) h.0))

-- What holds of every file holds of the files that a sort or a cut leaves.
module _ (P : SnapshotFile → Type 0) where
  All-place_file :
      (f : SnapshotFile) (files : List SnapshotFile)
      → P f
      → All P files
      → All P (place_file f files)
  unfolding place_file
  All-place_file f [] p h = (p, tt)
  All-place_file f (g ∷ files) p h =
      if_cases (All P) (ltb g.0 f.0) _ _ (λ _. (p, h)) (λ _. (h.0, All-place_file f files p h.1))

  All-newest_first : (files : List SnapshotFile) → All P files → All P (newest_first files)
  unfolding newest_first
  All-newest_first [] h = tt
  All-newest_first (f ∷ files) h =
      All-place_file f (newest_first files) h.0 (All-newest_first files h.1)

  All-take : (n : ℕ) (files : List SnapshotFile) → All P files → All P (take n files)
  unfolding take
  All-take zero files h = tt
  All-take (suc n) [] h = tt
  All-take (suc n) (f ∷ files) h = (h.0, All-take n files h.1)

newest-found :
    (c : SnapshotCodec) (f : SnapshotFile) (files : List SnapshotFile) (s : Snapshot)
    → All (λ (g : SnapshotFile). g.0 < f.0) files
    → read c f.1 ≡ some s
    → latest_usable c (f ∷ files) ≡ some s
unfolding latest_usable first_usable newest_first
newest-found c f files s h e =
    ap (first_usable c) (
      place-newest f (newest_first files)
        (All-newest_first (λ (g : SnapshotFile). g.0 < f.0) files h))
    ∙ rw (e, first_usable) refl

-- For a state with a last number above those of all snapshots in the directory: if its snapshot can be
-- encoded, what it is encoded to decodes to it, the checksum is a u32, and the file system takes it, then after
-- pruning to any positive number of files the newest usable snapshot is that state at that number, and
-- no more files are left than that number.
pub latest_usable-write :
    (c : SnapshotCodec) (files : List SnapshotFile) (state : AuctionState) (seq : Seq)
    (body : List ℕ) (keep : ℕ)
    → state.last_seq ≡ some seq
    → c.serialize (record { seq = seq; state = state }) ≡ some body
    → c.deserialize body ≡ some (record { seq = seq; state = state })
    → c.hash body ≤ u32_max
    → All (λ (g : SnapshotFile). g.0 < seq) files
    → (files' : List SnapshotFile) × (write c true files state ≡ wrote (some seq) files')
      × (latest_usable c (prune (suc keep) files').0 ≡ some (record { seq = seq; state = state }))
      × (length (prune (suc keep) files').0 ≤ suc keep)
unfolding write prune take
latest_usable-write c files state seq body keep last e back small newer =
    let file : SnapshotFile = (seq, seal c body) in
    let rest : List SnapshotFile = take keep (newest_first files) in
    let older : All (λ (g : SnapshotFile). g.0 < seq) rest =
      All-take (λ (g : SnapshotFile). g.0 < seq) keep (newest_first files)
        (All-newest_first (λ (g : SnapshotFile). g.0 < seq) files newer) in
    let kept : take (suc keep) (newest_first (put_file seq (seal c body) files)) ≡ file ∷ rest =
      ap (take (suc keep)) (sorted-put seq (seal c body) files newer) in
    (
      put_file seq (seal c body) files,
      rw (last, write) (rw (e, write) refl),
      ap (latest_usable c) kept
          ∙ newest-found c file rest (record { seq = seq; state = state }) older
              (read-seal c (record { seq = seq; state = state }) body back small),
      subst (λ l. length l ≤ suc keep) (sym kept)
          (omega (arith, length-take keep (newest_first files))),
    )
