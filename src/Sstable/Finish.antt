-- ===== src/Sstable/Finish.antt =====
-- `finish`: the filter, the index, the footer, and the rename to the final name.
use via_tabula.Base.{
  ℕ, ◌+◌, ◌%◌, ◌^◌, ◌≡◌, ◌≢◌, refl, ◌∙◌, sym, ap, Option, some, [], ◌∷◌, ◌++◌, length, append_assoc,
  append-nil,
}
use via_tabula.Base.Bytes.{Bytes, to_le_bytes}
use via_tabula.Fs.{
  contents-put_other, contents-without_other, without, no_fault, FilePath, World, contents,
  BufWriter, rename, contents-put, same_path_refl, later_faults,
}
use via_tabula.Fs.Post.{Post, returns, Post-bind, Post-map_err, Post-attempt}
use via_tabula.Bloom.{BloomFilter, to_bytes}
use via_tabula.Sstable.Writer.{io, SsTableWriter, Index, write_index, finish, index_len}
use via_tabula.Sstable.Layout.{index_bytes, footer, image}
use via_tabula.Sstable.Stream.{Streaming, Unchanged, flush_buffer-Streaming}
use via_tabula.Sstable.Build.{Building, or_err-write}

module _ (path tmp : FilePath) (old : FilePath → Option Bytes) (Q : Type 0) where
  abbrev Sending : Bytes → BufWriter → World → Type 0
  Sending = Streaming path tmp old Q

  abbrev Failed : World → Type 0
  Failed = Unchanged path tmp old Q

  write_index-Sending :
      (idx : Index) (sent : Bytes) (bw : BufWriter) (w : World)
      → tmp ≢ path
      → Sending sent bw w
      → Post (Sending (sent ++ index_bytes idx)) Failed (write_index bw idx w)
  unfolding write_index index_bytes
  write_index-Sending [] sent bw w apart h = rw (append-nil sent) (returns _ _ h)
  write_index-Sending ((key, offset) ∷ rest) sent bw w apart h =
      let k = to_le_bytes 4 (length key % 2 ^ 32) in
      let o = to_le_bytes 8 offset in
      Post-bind _ (or_err-write path tmp old Q sent k bw w apart h) (λ bw1 w1 h1.
        Post-bind _ (or_err-write path tmp old Q (sent ++ k) key bw1 w1 apart h1) (λ bw2 w2 h2.
          Post-bind _ (or_err-write path tmp old Q ((sent ++ k) ++ key) o bw2 w2 apart h2)
            (λ bw3 w3 h3.
              let whole : (((sent ++ k) ++ key) ++ o) ++ index_bytes rest
                  ≡ sent ++ (k ++ (key ++ (o ++ index_bytes rest))) =
                simp append_assoc in
              rw⁻¹ whole (write_index-Sending rest (((sent ++ k) ++ key) ++ o) bw3 w3 apart h3))))

  -- The final name holds these bytes.
  pub record Stored (bytes : Bytes) (w : World) : Type 0 where
    pub holds : contents w.files path ≡ some bytes
    pub kept : (q : FilePath) → q ≢ tmp → q ≢ path → contents w.files q ≡ old q
    pub quiet : Q → w.faults ≡ []

  rename-Stored :
      (sent : Bytes) (bw : BufWriter) (w : World)
      → tmp ≢ path
      → Sending sent bw w
      → bw.buffer ≡ []
      → Post (λ _. Stored sent) Failed (rename tmp path w)
  unfolding rename
  rename-Stored sent bw w apart h e =
      let whole : contents w.files tmp ≡ some sent =
        h.there
        ∙ ap some (sym (append-nil h.front) ∙ ap (λ (b : Bytes). h.front ++ b) (sym e) ∙ h.all) in
      rw (rename, whole)
        (Post-attempt _ _ w
          (λ fine. record {
            holds = rw (contents-put, same_path_refl path) refl;
            kept = λ q other apart_q.
                contents-put_other path q sent (without tmp w.files) apart_q
                ∙ contents-without_other tmp q w.files other
                ∙ h.kept q other;
            quiet = λ q. ap later_faults (h.quiet q);
          })
          (λ n fault. record { kept = h.kept; noisy = λ q. no_fault w.faults n (h.quiet q) fault }))

  pub finish-Stored :
      (body : Bytes) (idx : Index) (since : ℕ) (f : BloomFilter) (sw : SsTableWriter) (w : World)
      → tmp ≢ path
      → Building path tmp old Q body idx since f sw w
      → Post (λ _. Stored (image body f idx)) Failed (finish sw w)
  unfolding finish image footer
  finish-Stored body idx since f sw w apart h =
      let fb = to_bytes f in
      let ib = index_bytes idx in
      let a = to_le_bytes 8 (length body) in
      let b = to_le_bytes 8 (length fb) in
      let c = to_le_bytes 8 (length body + length fb) in
      let d = to_le_bytes 8 (index_len idx) in
      let whole : (((((body ++ fb) ++ ib) ++ a) ++ b) ++ c) ++ d
          ≡ body ++ (fb ++ (ib ++ (a ++ (b ++ (c ++ d))))) =
        simp append_assoc in
      rw (h.filter, h.index, h.offset, h.temporary, h.final, ← whole)
        (Post-bind _ (or_err-write path tmp old Q body fb sw.writer w apart h.stream) (λ bw1 w1 h1.
          Post-bind _ (write_index-Sending idx (body ++ fb) bw1 w1 apart h1) (λ bw2 w2 h2.
            Post-bind _ (or_err-write path tmp old Q _ a bw2 w2 apart h2) (λ bw3 w3 h3.
              Post-bind _ (or_err-write path tmp old Q _ b bw3 w3 apart h3) (λ bw4 w4 h4.
                Post-bind _ (or_err-write path tmp old Q _ c bw4 w4 apart h4) (λ bw5 w5 h5.
                  Post-bind _ (or_err-write path tmp old Q _ d bw5 w5 apart h5) (λ bw6 w6 h6.
                    Post-bind _
                      (Post-map_err (λ _. io)
                        (flush_buffer-Streaming path tmp old Q _ bw6 w6 apart h6))
                      (λ bw7 w7 g.
                        Post-map_err (λ _. io) (rename-Stored _ bw7 w7 apart g.0 g.1)))))))))
