-- ===== src/Wal/LogManager/Reopen.antt =====
-- log_manager.cpp: what the constructor finds in a file that was written by Append*.
use flintdb.Prelude.{
  ℕ, zero, suc, ◌+◌, ◌<◌, ◌≤◌, ◌≡◌, refl, ap, sym, ◌∙◌, inl, inr, none, some, List, [], ◌∷◌, ◌++◌,
  append-nil, append_assoc, arith, length, length-append, take, take-append_length, All, ltb,
  Option-cases, if◌then◌else◌,
}
use flintdb.Bytes.{read_at}
use flintdb.Wal.LogRecord.{LogRecordType, type_of_code, LogRecord, payload}
use flintdb.Wal.Codec.{header_size, checksum_size, Parsed, parse_payload, parse_record}
use flintdb.Wal.Codec.RoundTrip.{IsWritable, bytes_of, length-bytes_of, parse-bytes_of, parse-torn}
use flintdb.Wal.LogManager.{LogManager, opened, scan, next_after, open_log}

-- A record that parses lies within the file and takes up some of it.
parse_payload-bounds :
    (data' : List ℕ) (offset : ℕ) (kind : LogRecordType) (n : ℕ) (p : Parsed)
    → parse_payload data' offset kind n ≡ some p
    → (0 < p.record_len) × (offset + p.record_len ≤ length data')
unfolding parse_payload
parse_payload-bounds data' offset kind n p h = ground arith

parse_record-bounds :
    (data' : List ℕ) (offset : ℕ) (p : Parsed)
    → parse_record data' offset ≡ some p
    → (0 < p.record_len) × (offset + p.record_len ≤ length data')
unfolding parse_record
parse_record-bounds data' offset p h =
    elim (Option-cases (type_of_code (read_at 1 data' (offset + 8)))) [
      | inl e ↦ absurd (ground arith)
      | inr (kind, e) ↦
          parse_payload-bounds data' offset kind (read_at 4 data' (offset + 25)) p (ground arith)
    ]

scan_total :
    (fuel : ℕ) (data' : List ℕ) (offset : ℕ)
    → offset ≤ length data'
    → length data' < offset + fuel
    → (rs : List LogRecord) × (good : ℕ) × (scan fuel data' offset ≡ some (rs, good))
      × (good ≤ length data')
unfolding scan
scan_total zero data' offset b h = absurd (omega arith)
scan_total (suc fuel) data' offset b h = elim (Option-cases (parse_record data' offset)) [
  | inl e ↦ ([], offset, rw (e, scan) refl, b)
  | inr (p, e) ↦
      let (pos, fits) = parse_record-bounds data' offset p e in
      let (rs, good, s, le) = scan_total fuel data' (offset + p.record_len) fits (omega arith) in
      (p.found ∷ rs, good, rw (e, scan) (rw s), le)
]

-- Whatever bytes the file holds, the scan ends, and it keeps a prefix of the file that is no longer
-- than the file.
pub open_log_total :
    (data' : List ℕ)
    → (m : LogManager) × (good : ℕ) × (open_log data' ≡ some m)
      × (good ≤ length data')
      × (m.file ≡ (if ltb good (length data') then take good data' else data'))
unfolding open_log
open_log_total data' =
    let (rs, good, s, le) = scan_total (suc (length data')) data' 0 (omega arith) (omega arith) in
    (opened data' rs good, good, rw (s, open_log), le, refl)

abbrev pub bytes_of_all : List LogRecord → List ℕ
bytes_of_all [] = []
bytes_of_all (r ∷ rs) = bytes_of r ++ bytes_of_all rs

-- What stands after the last whole record: nothing, or the beginning of one more.
pub data Tail : List ℕ → Type 0 where
  clean : Tail []
  torn :
      {t : List ℕ} (r : LogRecord) (rest : List ℕ)
      → IsWritable r
      → t ++ rest ≡ bytes_of r
      → 0 < length rest
      → Tail t

parse-Tail : (pre t : List ℕ) → Tail t → parse_record (pre ++ t) (length pre) ≡ none
unfolding parse_record
parse-Tail pre [] clean = ground (arith, length-append pre [])
parse-Tail pre t (torn r rest w e h) = parse-torn r w pre t rest e h

scan-written :
    (rs : List LogRecord) (fuel : ℕ) (pre t : List ℕ)
    → All IsWritable rs
    → Tail t
    → length (bytes_of_all rs) < fuel
    → scan fuel (pre ++ (bytes_of_all rs ++ t)) (length pre)
      ≡ some (rs, length pre + length (bytes_of_all rs))
unfolding scan
scan-written rs zero pre t w e h = absurd (omega arith)
scan-written [] (suc fuel) pre t w e h =
    rw (parse-Tail pre t e, scan) (ap (λ n. some ([], n)) (omega arith))
scan-written (r ∷ rs) (suc fuel) pre t w e h =
    rw (whole, parse-bytes_of r w.0 pre (bytes_of_all rs ++ t), scan)
      (rw
        (
          later,
          length_pre',
          scan-written rs fuel (pre ++ bytes_of r) t w.1 e
              (omega (arith, length-append (bytes_of r) (bytes_of_all rs), length-bytes_of r w.0)),
        )
        (ap (λ n. some (r ∷ rs, n))
          (omega
            (arith, length-append pre (bytes_of r), length-append (bytes_of r) (bytes_of_all rs)))))
  where
    whole : pre ++ (bytes_of_all (r ∷ rs) ++ t) ≡ pre ++ (bytes_of r ++ (bytes_of_all rs ++ t))
    whole = ap (λ d. pre ++ d) (append_assoc (bytes_of r) (bytes_of_all rs) t)

    later : pre ++ (bytes_of_all (r ∷ rs) ++ t) ≡ (pre ++ bytes_of r) ++ (bytes_of_all rs ++ t)
    later = whole ∙ sym (append_assoc pre (bytes_of r) (bytes_of_all rs ++ t))

    length_pre' :
        length pre + (header_size + length (payload r.kind r.page_image) + checksum_size)
        ≡ length (pre ++ bytes_of r)
    length_pre' = omega (arith, length-append pre (bytes_of r), length-bytes_of r w.0)

truncated :
    (xs t : List ℕ)
    → (if ltb (length xs) (length (xs ++ t)) then take (length xs) (xs ++ t) else xs ++ t) ≡ xs
truncated xs [] = ground (arith, length-append xs [], append-nil {A = ℕ} xs)
truncated xs (b ∷ t) = ground (arith, length-append xs (b ∷ t), take-append_length xs (b ∷ t))

-- A file that holds whole records, and after them at most a part of one more, is opened with exactly
-- those records, in order; the part is cut off, and the next LSN follows the last record's.
pub open_log-written :
    (rs : List LogRecord) (t : List ℕ)
    → All IsWritable rs
    → Tail t
    → open_log (bytes_of_all rs ++ t)
      ≡ some (record {
        file = bytes_of_all rs;
        synced = bytes_of_all rs ++ t;
        next_lsn = next_after rs;
        records_on_open = rs;
        durable_lsn = 0;
      })
unfolding open_log
open_log-written rs t w e =
    rw (scanned, open_log)
      (ap
        (λ f. some (record {
          file = f;
          synced = bytes_of_all rs ++ t;
          next_lsn = next_after rs;
          records_on_open = rs;
          durable_lsn = 0;
        }))
        (truncated (bytes_of_all rs) t))
  where
    scanned :
        scan (suc (length (bytes_of_all rs ++ t))) (bytes_of_all rs ++ t) 0
        ≡ some (rs, length (bytes_of_all rs))
    scanned =
        scan-written rs (suc (length (bytes_of_all rs ++ t))) [] t w e
          (omega (arith, length-append (bytes_of_all rs) t))
        ∙ ap (λ n. some (rs, n)) (omega arith)
