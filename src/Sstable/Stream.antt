-- ===== src/Sstable/Stream.antt =====
-- What a buffered writer has written to its temporary file, while the file of the final name stays as
-- it was.
use via_tabula.Base.{
  ◌-◌, ◌<◌, ◌≡◌, refl, ◌≢◌, ◌∙◌, sym, ap, true, Option, some, [], ◌∷◌, ◌++◌, if◌then◌else◌, length,
  ltb, leb, append_assoc, append-nil, arith, Bool-cases, inl, inr,
}
use via_tabula.Base.Bytes.{Bytes}
use via_tabula.Fs.{
  contents-put_other, no_fault, FilePath, World, contents, write_all, BufWriter, flush_buffer,
  write_cold, write_buffered, contents-put, same_path_refl, or_empty, later_faults, pure,
}
use via_tabula.Fs.Post.{Post, returns, Post-attempt, Post-bind, Post-imp}

empty_of_length : (bytes : Bytes) → length bytes ≡ 0 → bytes ≡ []
empty_of_length [] e = refl
empty_of_length (b ∷ bs) e = absurd (omega (arith, e))

-- `Q` stands for a world that began with no faults.
module _ (path tmp : FilePath) (old : FilePath → Option Bytes) (Q : Type 0) where
  pub record Streaming (written : Bytes) (bw : BufWriter) (w : World) : Type 0 where
    pub to_tmp : bw.file ≡ tmp
    pub front : Bytes
    pub there : contents w.files tmp ≡ some front
    pub all : front ++ bw.buffer ≡ written
    pub kept : (q : FilePath) → q ≢ tmp → contents w.files q ≡ old q
    pub quiet : Q → w.faults ≡ []
    pub room : 0 < bw.capacity

  -- After a failure all files but the temporary one have what they had, and there was a fault.
  pub record Unchanged (w : World) : Type 0 where
    pub kept : (q : FilePath) → q ≢ tmp → contents w.files q ≡ old q
    pub noisy : ¬ Q

  record Written (bytes : Bytes) (w : World) : Type 0 where
    pub there : contents w.files tmp ≡ some bytes
    pub kept : (q : FilePath) → q ≢ tmp → contents w.files q ≡ old q
    pub quiet : Q → w.faults ≡ []

  write_all-Written :
      (front bytes : Bytes) (w : World)
      → tmp ≢ path
      → Written front w
      → Post (λ _ w'. Written (front ++ bytes) w') Unchanged (write_all tmp bytes w)
  unfolding write_all
  write_all-Written front bytes w apart h =
      Post-attempt _ _ w
        (λ fine. record {
          there =
              rw (contents-put, same_path_refl tmp)
                (ap (λ (b : Bytes). some (b ++ bytes)) (or_empty w.files tmp front h.there));
          kept = λ q other. contents-put_other tmp q _ w.files other ∙ h.kept q other;
          quiet = λ q. ap later_faults (h.quiet q);
        })
        (λ n fault. record {
          kept = λ q other. contents-put_other tmp q _ w.files other ∙ h.kept q other;
          noisy = λ q. no_fault w.faults n (h.quiet q) fault;
        })

  write_all_to :
      (front bytes : Bytes) (file : FilePath) (w : World)
      → tmp ≢ path
      → file ≡ tmp
      → Written front w
      → Post (λ _ w'. Written (front ++ bytes) w') Unchanged (write_all file bytes w)
  write_all_to front bytes file w apart e h = rw e (write_all-Written front bytes w apart h)

  pub flush_buffer-Streaming :
      (sent : Bytes) (bw : BufWriter) (w : World)
      → tmp ≢ path
      → Streaming sent bw w
      → Post (λ bw' w'. Streaming sent bw' w' × (bw'.buffer ≡ [])) Unchanged (flush_buffer bw w)
  unfolding flush_buffer
  flush_buffer-Streaming sent bw w apart h =
      Post-bind _
        (write_all_to h.front bw.buffer bw.file w apart h.to_tmp
          (record { there = h.there; kept = h.kept; quiet = h.quiet }))
        (λ _ w' g. returns _ _ (
          record {
            to_tmp = h.to_tmp;
            front = sent;
            there = g.there ∙ ap some h.all;
            all = append-nil sent;
            kept = g.kept;
            quiet = g.quiet;
            room = h.room;
          },
          refl,
        ))

  -- Bytes that are kept in the buffer.
  Streaming-buffered :
      (sent bytes : Bytes) (bw : BufWriter) (w : World)
      → Streaming sent bw w
      → Streaming (sent ++ bytes) (record bw { buffer = bw.buffer ++ bytes }) w
  Streaming-buffered sent bytes bw w h = record {
    to_tmp = h.to_tmp;
    front = h.front;
    there = h.there;
    all = sym (append_assoc h.front bw.buffer bytes) ∙ ap (λ (b : Bytes). b ++ bytes) h.all;
    kept = h.kept;
    quiet = h.quiet;
    room = h.room;
  }

  whole_front :
      {sent : Bytes} {bw : BufWriter} {w : World}
      → (h : Streaming sent bw w) → bw.buffer ≡ []
      → h.front ≡ sent
  whole_front {bw = bw} h e =
      sym (append-nil h.front) ∙ ap (λ (b : Bytes). h.front ++ b) (sym e) ∙ h.all

  -- The buffer is empty where the bytes do not fit into it.
  Ready : Bytes → Bytes → BufWriter → World → Type 0
  Ready sent bytes bw w =
      Streaming sent bw w × (leb bw.capacity (length bytes) ≡ true → bw.buffer ≡ [])

  make_room-Ready :
      (sent bytes : Bytes) (bw : BufWriter) (w : World)
      → tmp ≢ path
      → Streaming sent bw w
      → Post (Ready sent bytes) Unchanged (
          (if ltb (bw.capacity - length bw.buffer) (length bytes) then flush_buffer bw else pure bw)
            w)
  unfolding Ready
  make_room-Ready sent bytes bw w apart h =
      elim (Bool-cases (ltb (bw.capacity - length bw.buffer) (length bytes))) [
        | inl full ↦
            rw full
              (Post-imp (flush_buffer-Streaming sent bw w apart h) (λ bw' w' g. (g.0, λ _. g.1)))
        | inr fits ↦
            rw fits (returns _ _ (h, λ long. empty_of_length bw.buffer (ground (arith, h.room))))
      ]

  write_cold-Streaming :
      (sent bytes : Bytes) (bw : BufWriter) (w : World)
      → tmp ≢ path
      → Streaming sent bw w
      → Post (Streaming (sent ++ bytes)) Unchanged (write_cold bw bytes w)
  unfolding write_cold Ready
  write_cold-Streaming sent bytes bw w apart h =
      Post-bind _ (make_room-Ready sent bytes bw w apart h) (λ bw' w' (g, ready).
        elim (Bool-cases (leb bw'.capacity (length bytes))) [
          | inl long ↦ rw long (
              Post-bind _
                (write_all_to g.front bytes bw'.file w' apart g.to_tmp
                  (record { there = g.there; kept = g.kept; quiet = g.quiet }))
                (λ _ w'' d. returns _ _ (record {
                  to_tmp = g.to_tmp;
                  front = g.front ++ bytes;
                  there = d.there;
                  all =
                      rw (ready long, append-nil)
                        (ap (λ (b : Bytes). b ++ bytes) (whole_front g (ready long)));
                  kept = d.kept;
                  quiet = d.quiet;
                  room = g.room;
                })))
          | inr short ↦ rw short (returns _ _ (Streaming-buffered sent bytes bw' w' g))
        ])

  pub write_buffered-Streaming :
      (sent bytes : Bytes) (bw : BufWriter) (w : World)
      → tmp ≢ path
      → Streaming sent bw w
      → Post (Streaming (sent ++ bytes)) Unchanged (write_buffered bw bytes w)
  unfolding write_buffered
  write_buffered-Streaming sent bytes bw w apart h =
      elim (Bool-cases (ltb (length bytes) (bw.capacity - length bw.buffer))) [
        | inl fits ↦ rw fits (returns _ _ (Streaming-buffered sent bytes bw w h))
        | inr cold ↦ rw cold (write_cold-Streaming sent bytes bw w apart h)
      ]
