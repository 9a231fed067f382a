-- ===== src/Proxy/Dumper/Rotation/Listing.antt =====
-- What the saving of a file (src/proxy/dumper.rs, `save_pcap`) does to the whole files of the directory.
use mini_proxad.Prelude.{Within, nothing, with_it, without, Within-refl, true, false}
use mini_proxad.Filter.Objects.{eq_bytes}
use mini_proxad.Prelude.{
  ℕ, ◌≡◌, ◌≢◌, refl, ap, ◌∙◌, inl, inr, ◌⊎◌, List, [], ◌∷◌, ◌++◌, append-nil, panicked, Bool-cases,
  Result-cases, ◌==◌,
}
use mini_proxad.Proxy.Dumper.Packet.{PcapPacket}
use mini_proxad.Prelude.{Bytes}
use mini_proxad.Proxy.Dumper.Rotation.{
  save_pcap, Finish, save, Persisted, moved, other_device, refused, Copied, copied_all, copy_failed,
  whole, broken, Directory, without_name, write_file,
}

-- The files that are whole, under their names.
abbrev pub whole_files : Directory → List (Bytes × List PcapPacket)
whole_files [] = []
whole_files ((name, whole packets) ∷ files) = (name, packets) ∷ whole_files files
whole_files ((name, broken) ∷ files) = whole_files files

whole_files-append :
    (files files' : Directory)
    → whole_files (files ++ files') ≡ whole_files files ++ whole_files files'
whole_files-append [] files' = refl
whole_files-append ((name, whole ps) ∷ files) files' =
    ap (λ l. (name, ps) ∷ l) (whole_files-append files files')
whole_files-append ((name, broken) ∷ files) files' = whole_files-append files files'

whole_files-without_name :
    (name : Bytes) (files : Directory)
    → Within (whole_files (without_name name files)) (whole_files files)
unfolding without_name
whole_files-without_name name [] = nothing
whole_files-without_name name ((name', whole ps) ∷ files) =
    elim (Bool-cases (eq_bytes name' name)) [
      | inl e ↦ rw e (without (whole_files-without_name name files))
      | inr e ↦ rw e (with_it (whole_files-without_name name files))
    ]
whole_files-without_name name ((name', broken) ∷ files) = elim (Bool-cases (eq_bytes name' name)) [
  | inl e ↦ rw e (whole_files-without_name name files)
  | inr e ↦ rw e (whole_files-without_name name files)
]

-- A directory in which a file may have been written: some whole files are left, and maybe the new one
-- stands behind them.
abbrev pub Changed : List PcapPacket → Directory → Directory → Type 0
Changed packets files files' =
    (left : List (Bytes × List PcapPacket)) × Within left (whole_files files)
    × ((whole_files files' ≡ left)
        ⊎ ((name : Bytes) × (whole_files files' ≡ left ++ (name, packets) ∷ [])))

pub Changed-refl : (packets : List PcapPacket) (files : Directory) → Changed packets files files
Changed-refl packets files = (whole_files files, Within-refl (whole_files files), inl refl)

write_file-Changed :
    (name : Bytes) (packets : List PcapPacket) (files : Directory)
    → Changed packets files (write_file name (whole packets) files)
      × Changed packets files (write_file name broken files)
unfolding write_file
write_file-Changed name packets files =
    let left = whole_files (without_name name files) in
    let within = whole_files-without_name name files in
    (
      (left, within, inr (name, whole_files-append (without_name name files) _)),
      (left, within, inl (whole_files-append (without_name name files) _ ∙ append-nil left)),
    )

save_pcap-Changed :
    (finish : Finish) (name : Bytes) (packets : List PcapPacket) (files : Directory)
    → Changed packets files (save_pcap finish name packets files).0
unfolding save_pcap
save_pcap-Changed finish name packets files = go finish.persisted refl finish.copied refl
  where
    go :
        (p : Persisted)
        → finish.persisted ≡ p
        → (c : Copied) → finish.copied ≡ c
        → Changed packets files (save_pcap finish name packets files).0
    go moved e c d = rw (e, save_pcap) (write_file-Changed name packets files).0
    go (refused x) e c d = rw (e, save_pcap) (Changed-refl packets files)
    go other_device e copied_all d = rw (e, save_pcap, d) (write_file-Changed name packets files).0
    go other_device e (copy_failed true) d =
        rw (e, save_pcap, d) (write_file-Changed name packets files).1
    go other_device e (copy_failed false) d = rw (e, save_pcap, d) (Changed-refl packets files)

-- Only a name can panic.
pub save-Changed :
    (finish : Finish) (n : ℕ) (packets : List PcapPacket) (files : Directory)
    → finish.name ≢ panicked
    → Changed packets files (save finish n packets files).0
      × ((save finish n packets files).1 ≢ panicked)
unfolding save
save-Changed finish n packets files h = elim (Bool-cases (n == 0)) [
  | inl e ↦ rw e (Changed-refl packets files, λ x. cc)
  | inr e ↦ elim (Result-cases finish.name) [
    | inl (name, k) ↦ rw (e, k) (save_pcap-Changed finish name packets files, λ x. cc)
    | inr (inl (x, k)) ↦ rw (e, k) (Changed-refl packets files, λ x. cc)
    | inr (inr k) ↦ absurd (h k)
  ]
]
