-- ===== src/Sstable/Build.antt =====
-- What `SsTableWriter` has written after `add`, the loop over a table, and `finish`.
use via_tabula.Base.{
  ℕ, ◌+◌, ◌≡◌, ◌≢◌, refl, sym, Bool, false, ◌||◌, Bool-cases, Option, List, [], ◌∷◌, ◌++◌,
  if◌then◌else◌, leb, length, length-append, append_assoc, append-nil, Outcome, ok, arith, inl, inr,
}
use via_tabula.Base.Bytes.{Bytes}
use via_tabula.Map.{Entries}
use via_tabula.Fs.{FilePath, World, or_err, write_buffered, BufWriter}
use via_tabula.Fs.Post.{Post, returns, Post-bind, Post-map_err}
use via_tabula.Bloom.{BloomFilter, IsFilter, insert}
use via_tabula.Bloom.Insert.{insert_all, insert_exact}
use via_tabula.Sstable.Writer.{
  SsTableError, io, SsTableWriter, Index, is_empty, checkpoint, record_bytes, add,
}
use via_tabula.Sstable.Layout.{records, sparse_index}
use via_tabula.Sstable.Stream.{Streaming, Unchanged, write_buffered-Streaming}
use via_tabula.Memtable.{add_all}

abbrev pub keys_of : Entries → List Bytes
keys_of [] = []
keys_of ((key, value) ∷ rest) = let keys = keys_of rest in key ∷ keys

pub ok_inj : {f g : BloomFilter} → ◌≡◌ {A = Outcome SsTableError BloomFilter} (ok f) (ok g) → f ≡ g
ok_inj e = cc

module _ (path tmp : FilePath) (old : FilePath → Option Bytes) (Q : Type 0) where
  -- The writer has sent these bytes, with this index and filter in memory.
  pub record Building (sent : Bytes) (idx : Index) (since : ℕ) (f : BloomFilter)
      (sw : SsTableWriter) (w : World) : Type 0 where
    pub stream : Streaming path tmp old Q sent sw.writer w
    pub offset : sw.offset ≡ length sent
    pub index : sw.index ≡ idx
    pub recent : sw.bytes_since_last_index ≡ since
    pub filter : sw.filter ≡ f
    pub temporary : sw.tmp_path ≡ tmp
    pub final : sw.final_path ≡ path

  pub or_err-write :
      (sent bytes : Bytes) (bw : BufWriter) (w : World)
      → tmp ≢ path
      → Streaming path tmp old Q sent bw w
      → Post
          (Streaming path tmp old Q (sent ++ bytes))
          (Unchanged path tmp old Q)
          (or_err (write_buffered bw bytes) io w)
  or_err-write sent bytes bw w apart h =
      Post-map_err (λ _. io) (write_buffered-Streaming path tmp old Q sent bytes bw w apart h)

  marks : Index → ℕ → Bool
  marks idx since = is_empty idx || leb 4096 since

  index_after : Bytes → Index → ℕ → Bytes → Index
  unfolding marks
  index_after sent idx since key = if marks idx since then idx ++ ((key, length sent) ∷ []) else idx

  checkpoint-Building :
      (sent : Bytes) (idx : Index) (since : ℕ) (f : BloomFilter) (key : Bytes) (sw : SsTableWriter)
      (w : World)
      → Building sent idx since f sw w
      → Building sent
          (index_after sent idx since key)
          (if marks idx since then 0 else since)
          f
          (checkpoint sw key)
          w
  unfolding checkpoint marks index_after
  checkpoint-Building sent idx since f key sw w h = elim (Bool-cases (marks idx since)) [
    | inl e ↦
        rw (h.index, h.recent, e)
          (record {
            stream = h.stream;
            offset = h.offset;
            index = rw h.offset refl;
            recent = refl;
            filter = h.filter;
            temporary = h.temporary;
            final = h.final;
          })
    | inr e ↦
        rw (h.index, h.recent, e)
          (record {
            stream = h.stream;
            offset = h.offset;
            index = refl;
            recent = refl;
            filter = h.filter;
            temporary = h.temporary;
            final = h.final;
          })
  ]

  add-Building :
      (sent : Bytes) (idx : Index) (since : ℕ) (f f' : BloomFilter) (key value : Bytes)
      (sw : SsTableWriter) (w : World)
      → tmp ≢ path
      → insert {E = SsTableError} f key ≡ ok f'
      → Building sent idx since f sw w
      → Post
          (Building
            (sent ++ record_bytes key value)
            (index_after sent idx since key)
            ((if marks idx since then 0 else since) + length (record_bytes key value))
            f')
          (Unchanged path tmp old Q)
          (add sw key value w)
  unfolding add
  add-Building sent idx since f f' key value sw w apart e h =
      let g = checkpoint-Building sent idx since f key sw w h in
      Post-bind _
        (or_err-write sent (record_bytes key value) (checkpoint sw key).writer w apart g.stream)
        (λ bw w' s.
          rw (g.filter, e)
            (returns _ _ (record {
              stream = s;
              offset = rw g.offset (sym (length-append sent (record_bytes key value)));
              index = g.index;
              recent = rw g.recent refl;
              filter = refl;
              temporary = g.temporary;
              final = g.final;
            })))

  is_empty-append : (idx : Index) (e : Bytes × ℕ) → is_empty (idx ++ (e ∷ [])) ≡ false
  is_empty-append [] e = refl
  is_empty-append (x ∷ idx) e = refl

  -- The entry that a record adds is the one that the table's index has for it.
  index_after-sparse_index :
      (sent : Bytes) (idx : Index) (since : ℕ) (key value : Bytes) (rest : Entries)
      → index_after sent idx since key
          ++ sparse_index
              (length (sent ++ record_bytes key value))
              ((if marks idx since then 0 else since) + length (record_bytes key value))
              (is_empty (index_after sent idx since key))
              rest
        ≡ idx ++ sparse_index (length sent) since (is_empty idx) ((key, value) ∷ rest)
  unfolding index_after sparse_index marks
  index_after-sparse_index sent idx since key value rest =
      let size = length-append sent (record_bytes key value) in
      elim (Bool-cases (marks idx since)) [
        | inl e ↦
            rw (size, e, is_empty-append idx (key, length sent))
              (append_assoc idx ((key, length sent) ∷ []) (
                sparse_index (length sent + length (record_bytes key value))
                  (0 + length (record_bytes key value)) false rest))
        | inr e ↦ let filled : is_empty idx ≡ false = ground (arith, e) in rw (size, e, filled) refl
      ]

  unfoldable pub Built : Bytes → Index → BloomFilter → SsTableWriter → World → Type 0
  Built sent idx f sw w = (since : ℕ) × Building sent idx since f sw w

  pub add_all-Built :
      (rest : Entries) (sent : Bytes) (idx : Index) (since : ℕ) (f f' : BloomFilter)
      (sw : SsTableWriter) (w : World)
      → tmp ≢ path
      → IsFilter f
      → insert_all {E = SsTableError} f (keys_of rest) ≡ ok f'
      → Building sent idx since f sw w
      → Post
          (Built
            (sent ++ records rest)
            (idx ++ sparse_index (length sent) since (is_empty idx) rest)
            f')
          (Unchanged path tmp old Q)
          (add_all sw rest w)
  unfolding add_all insert_all sparse_index records Built
  add_all-Built [] sent idx since f f' sw w apart v e h =
      rw (append-nil sent, append-nil idx) (returns _ _ (since, rw⁻¹ (ok_inj e) h))
  add_all-Built ((key, value) ∷ rest) sent idx since f f' sw w apart v e h =
      let (g, eg, i) = insert_exact {E = SsTableError} f key v in
      Post-bind _ (add-Building sent idx since f g key value sw w apart eg h) (λ sw' w' b.
        rw
          (
            sym (append_assoc sent (record_bytes key value) (records rest)),
            ← index_after-sparse_index sent idx since key value rest,
          )
          (add_all-Built rest _ _ _ g f' sw' w' apart i.valid (rw eg at e) b))
