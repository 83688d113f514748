-- ===== src/Broker/Tests.antt =====
-- Runs of the collector, and its theorems at them.
use acme_mux.Prelude.Utf8.{lead_of}
use acme_mux.Prelude.{◌≡◌, ◌≤◌, length, All, ℕ, true, refl, arith, List, [], ◌∷◌, ◌++◌}
use acme_mux.Prelude.Bytes.{codes}
use acme_mux.Broker.Output.{
  stdout, stderr, Collector, new_collector, accepted, write, Write, write_all, take_output,
}
use acme_mux.Broker.Sanitize.{is_format, decode_tail, decode_rune, sanitize_from, sanitize_output}
use acme_mux.Broker.Sanitize.Clean.{is_clean, sanitize_output-IsClean}
use acme_mux.Broker.Output.Exact.{take_output_exact, all_or_nothing}
use acme_mux.Broker.Output.Bounds.{Bounded, write_all-Bounded}

runs : Unit {0}
unfolding accepted write write_all take_output
runs = tt

abbrev writes : List Write
writes = (stdout, codes "one ") ∷ (stderr, codes "two") ∷ (stdout, codes "three") ∷ []

abbrev small : Collector
small = write_all writes (new_collector 8 8 10)

-- The last write is cut to the three bytes that the aggregate limit leaves, and all is dropped.
small_is_dropped : (take_output small).0 ≡ record { out = []; errors = []; overflowed = true }
unfolding runs
small_is_dropped = refl

small_had_kept : small.out ≡ codes "one thr"
unfolding runs
small_had_kept = refl

take_output_exact_example :
    ((take_output (write_all writes (new_collector 9 8 12))).0
      ≡ all_or_nothing true (codes "one three") (codes "two"))
    × ((write_all writes (new_collector 9 8 12)).notices ≡ 0)
take_output_exact_example = take_output_exact 9 8 12 writes

write_all-Bounded_example : Bounded small
write_all-Bounded_example =
    write_all-Bounded writes (new_collector 8 8 10) (omega arith, omega arith, omega arith)

sanitizes : Unit {0}
unfolding is_format lead_of decode_tail decode_rune sanitize_from sanitize_output
sanitizes = tt

-- An escape sequence, a text with an accent, a right-to-left override, and two bytes that are no rune.
abbrev colored : List ℕ
colored =
    0x1b ∷ codes "[31mred\n"
    ++ 0xc3 ∷ 0xa9 ∷ 0xe2 ∷ 0x80 ∷ 0xae ∷ 0xc0 ∷ 0xaf ∷ 0xf0 ∷ 0x9f ∷ 0x98 ∷ 0x80 ∷ []

abbrev plain : List ℕ
plain = codes "?[31mred\n" ++ 0xc3 ∷ 0xa9 ∷ b'?' ∷ b'?' ∷ b'?' ∷ 0xf0 ∷ 0x9f ∷ 0x98 ∷ 0x80 ∷ []

colored_is_shown_plain : sanitize_output colored ≡ plain
unfolding sanitizes
colored_is_shown_plain = refl

sanitize_output-IsClean_example :
    (length (sanitize_output colored) ≤ length colored)
    × All (λ b. is_clean b ≡ true) (sanitize_output colored)
sanitize_output-IsClean_example = sanitize_output-IsClean colored
