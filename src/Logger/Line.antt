-- ===== src/Logger/Line.antt =====
-- What a line of the log holds, and when `error` writes outside its block.
use linkedon_push.Common.{
  ℕ, suc, ◌+◌, ◌≤◌, ◌<◌, ◌≡◌, refl, sym, ap, ◌∙◌, [], ◌∷◌, ◌++◌, Option, none, some, Bytes, length,
  take, splice, length-splice, min, ◌>>=◌, arith, ◌↔◌, lt→ltb, le→ltb,
}
use linkedon_push.Logger.{
  FastLog, log_max_size, print_at, generate_header, log_line, write_log, error, add_errno,
  level_error, emit,
}
use linkedon_push.Logger.Block.{take-splice, with_header, with_text, length-with_text, text_lem}

tail_lem :
    (n : ℕ) (log_data : Bytes)
    → n ≤ length log_data
    → take (suc n) (splice log_data n (10 ∷ [])) ≡ take n log_data ++ (10 ∷ [])
tail_lem n log_data h =
    ap (λ k. take k (splice log_data n (10 ∷ []))) {x = suc n} {y = n + 1} (omega arith)
    ∙ take-splice log_data n 1 (10 ∷ []) [] h (omega arith)

write_log_lem :
    (opened created : Option ℕ) (size own : ℕ) (l : FastLog) (line : Bytes)
    → length l.log_data ≡ log_max_size
    → take (min 4094 size) l.log_data ≡ line
    → write_log opened created size own l
      ≡ emit opened created own
          (line ++ (10 ∷ []))
          (record l { log_data = splice l.log_data (min 4094 size) (10 ∷ []) })
unfolding write_log
write_log_lem opened created size own l line whole e =
    ap
      (λ t.
        emit opened created own t
          (record l { log_data = splice l.log_data (min 4094 size) (10 ∷ []) }))
      (tail_lem (min 4094 size) l.log_data (omega (arith, whole)) ∙ ap (λ t. t ++ (10 ∷ [])) e)

log_line-write_log :
    (opened created : Option ℕ) (own : ℕ) (header text : Bytes) (l : FastLog)
    → l.level ≤ own
    → min 4095 (length header) < log_max_size
    → log_line opened created own header text l
      ≡ some (
          write_log opened created (min 4095 (length header) + length text) own (record l {
            log_data =
                with_text 4094 (min 4095 (length header)) text (with_header 4094 header l.log_data);
          }))
unfolding log_line generate_header print_at
log_line-write_log opened created own header text l on small =
    rw (le→ltb own l.level on, lt→ltb (min 4095 (length header)) log_max_size small) refl

-- `verbose`, `info`, `trace` and `warn` at a level that is on, with a block of 4096 bytes: whatever the lengths of the
-- header and of the text, nothing is written outside the block; the line that goes out is the header and the text, cut
-- to 4094 bytes, and a newline.
pub log_line_lem :
    (opened created : Option ℕ) (own : ℕ) (header text : Bytes) (l : FastLog)
    → l.level ≤ own
    → length l.log_data ≡ log_max_size
    → (block : Bytes) × (length block ≡ log_max_size)
      × (log_line opened created own header text l
          ≡ some (
              emit opened created own
                (take 4094 (header ++ text) ++ (10 ∷ []))
                (record l { log_data = block })))
log_line_lem opened created own header text l on whole =
    let size : ℕ = min 4095 (length header) in
    let block2 = with_text 4094 size text (with_header 4094 header l.log_data) in
    let whole2 = length-with_text 4094 header text l.log_data whole size (omega arith) in
    (
      splice block2 (min 4094 (size + length text)) (10 ∷ []),
      length-splice block2 (min 4094 (size + length text)) (10 ∷ []) (omega (arith, whole2))
          ∙ whole2,
      log_line-write_log opened created own header text l on (omega arith)
          ∙ ap some (
              write_log_lem opened created (size + length text) own (record l { log_data = block2 })
                (take 4094 (header ++ text)) whole2
                (text_lem 4094 header text l.log_data whole size refl)),
    )

>>=-assoc_some :
    {A B C : Type 0} (o : Option A) (f : A → B) (g : B → Option C)
    → ((o >>= λ a. some (f a)) >>= g) ≡ (o >>= λ a. g (f a))
>>=-assoc_some none f g = refl
>>=-assoc_some (some a) f g = refl

>>=-some-none :
    {A B : Type 0} (o : Option A) (f : A → B) → (o >>= λ a. some (f a)) ≡ none → o ≡ none
>>=-some-none none f e = refl
>>=-some-none (some a) f e = cc e

print_at-none_iff :
    (size : ℕ) (text log_data : Bytes)
    → (print_at size text log_data ≡ none) ↔ (log_max_size < size)
unfolding print_at
print_at-none_iff size text log_data = (λ e. ground arith, λ h. ground arith)

error-print_at :
    (opened created : Option ℕ) (header text strerror : Bytes) (l : FastLog)
    → l.level ≤ level_error
    → min 4095 (length header) < log_max_size
    → error opened created header text (some strerror) l ≡ (
        print_at
          (min 4095 (length header) + length text)
          strerror
          (with_text 4094 (min 4095 (length header)) text (with_header 4094 header l.log_data))
        >>= λ added. some (
            write_log opened created
              (min 4095 (length header) + length text + added.0)
              level_error
              (record l { log_data = added.1 })))
unfolding error generate_header print_at add_errno
error-print_at opened created header text strerror l on small =
    rw (le→ltb level_error l.level on, lt→ltb (min 4095 (length header)) log_max_size small)
      (>>=-assoc_some (print_at (min 4095 (length header) + length text) strerror _) _ _)

-- `error` at a level that is on, behind a call that set `errno`: it writes outside the block exactly if the text
-- and the header, of which at most 4095 bytes count, have more than 4096 bytes.
pub error-none_iff :
    (opened created : Option ℕ) (header text strerror : Bytes) (l : FastLog)
    → l.level ≤ level_error
    → (error opened created header text (some strerror) l ≡ none)
      ↔ (log_max_size < min 4095 (length header) + length text)
error-none_iff opened created header text strerror l on =
    let size : ℕ = min 4095 (length header) in
    let printed =
      print_at (size + length text) strerror
        (with_text 4094 size text (with_header 4094 header l.log_data)) in
    let same = error-print_at opened created header text strerror l on (omega arith) in
    let iff =
      print_at-none_iff (size + length text) strerror
        (with_text 4094 size text (with_header 4094 header l.log_data)) in
    (
      λ e. iff.0 (>>=-some-none printed _ (sym same ∙ e)),
      λ h.
          same
          ∙ ap
              (λ o. o >>= λ added. some (
                write_log opened created (size + length text + added.0) level_error
                  (record l { log_data = added.1 })))
              (iff.1 h),
    )
