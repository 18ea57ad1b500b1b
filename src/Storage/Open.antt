-- ===== src/Storage/Open.antt =====
-- core/platform_storage.c: storage_open_ex, on the files of a metainfo that metainfo_parse returns.
use pipensx_video_downloader.Prelude.{
  ℕ, zero, suc, ◌+◌, ◌≤◌, ◌<◌, ◌≡◌, ◌≢◌, refl, ap, ◌∙◌, Bool, true, false, inl, inr, List, [], ◌∷◌,
  Option, none, some, Bytes, if◌then◌else◌, length, arith,
}
use pipensx_video_downloader.Prelude.Errors.{◌>>=◌, >>=-eq-some}
use mathlib.Core.Path.{subst}
use pipensx_video_downloader.Prelude.Errors.{some_inj}
use pipensx_video_downloader.Metainfo.Files.{MiFile, Metainfo, MetaOps}
use pipensx_video_downloader.Metainfo.Parse.{metainfo_parse}
use pipensx_video_downloader.Metainfo.Layout.{Placed}
use pipensx_video_downloader.Metainfo.Sound.{metainfo_parse-IsWellFormed}
use pipensx_video_downloader.Storage.{
  StorageFileMode, storage_file_disk, storage_file_sink, storage_file_skip, FileHandle, file_at,
}
use pipensx_video_downloader.Storage.Locate.{Laid}

-- `storage_file_config_t`; `has_sink` is whether there is a `sink`.
pub record StorageFileConfig : Type 0 where
  pub mode : StorageFileMode
  pub has_sink : Bool
  pub ready_bytes : ℕ

-- `configs`, where NULL leaves every file an ordinary one.
unfoldable pub config_of : Option (ℕ → StorageFileConfig) → ℕ → StorageFileConfig
config_of none i = record { mode = storage_file_disk; has_sink = false; ready_bytes = 0 }
config_of (some configs) i = configs i

-- The loop. `open_disk` is what stands in the file of that index once its path is built and it is
-- open, or none where that fails.
unfoldable pub open_files :
    (ℕ → Option Bytes) → Option (ℕ → StorageFileConfig) → ℕ → List MiFile → Option (List FileHandle)
open_files open_disk configs i [] = some []
open_files open_disk configs i (mf ∷ mfs) =
    let config = config_of configs i in
    let fh : FileHandle = record {
      offset = mf.offset;
      length = mf.length;
      mode = config.mode;
      ready_bytes = config.ready_bytes;
      has_sink = config.has_sink;
      opened = false;
      bytes = [];
    } in
    let next = open_files open_disk configs (i + 1) mfs in
    elim config.mode [
      | storage_file_disk ↦
          open_disk i
          >>= (λ bs. next >>= (λ fhs. some (record fh { opened = true; bytes = bs } ∷ fhs)))
      | storage_file_sink ↦ next >>= (λ fhs. some (fh ∷ fhs))
      | storage_file_skip ↦ next >>= (λ fhs. some (fh ∷ fhs))
    ]

-- `calloc` is whether the two allocations succeed.
unfoldable pub storage_open_ex :
    Bool → (ℕ → Option Bytes) → Metainfo → Option (ℕ → StorageFileConfig) → Option (List FileHandle)
storage_open_ex calloc open_disk mi configs =
    if calloc then open_files open_disk configs 0 mi.files else none

-- The handles stand where the files do.
abbrev Same : List MiFile → List FileHandle → Type 0
Same [] [] = Unit {0}
Same (f ∷ fs) (h ∷ hs) = (h.offset ≡ f.offset) × (h.length ≡ f.length) × Same fs hs
Same _ _ = ⊥

-- One round, for each mode.
open_round :
    (mode : StorageFileMode) (disk : Option Bytes) (next : Option (List FileHandle)) (f : MiFile)
    (fs : List MiFile) (fh : FileHandle) {hs : List FileHandle}
    → fh.offset ≡ f.offset
    → fh.length ≡ f.length
    → ((t : List FileHandle) → next ≡ some t → Same fs t)
    → elim mode as (λ _. Option (List FileHandle)) [
      | storage_file_disk ↦
          disk >>= (λ bs. next >>= (λ fhs. some (record fh { opened = true; bytes = bs } ∷ fhs)))
      | storage_file_sink ↦ next >>= (λ fhs. some (fh ∷ fhs))
      | storage_file_skip ↦ next >>= (λ fhs. some (fh ∷ fhs))
    ]
      ≡ some hs
    → Same (f ∷ fs) hs
open_round storage_file_disk disk next f fs fh at len ih h =
    let (bs, hb, h1) = >>=-eq-some disk _ h in
    let (t, ht, h2) = >>=-eq-some next _ h1 in
    subst (Same (f ∷ fs)) (some_inj h2) (at, len, ih t ht)
open_round storage_file_sink disk next f fs fh at len ih h =
    let (t, ht, h1) = >>=-eq-some next _ h in subst (Same (f ∷ fs)) (some_inj h1) (at, len, ih t ht)
open_round storage_file_skip disk next f fs fh at len ih h =
    let (t, ht, h1) = >>=-eq-some next _ h in subst (Same (f ∷ fs)) (some_inj h1) (at, len, ih t ht)

open_files-Same :
    (open_disk : ℕ → Option Bytes) (configs : Option (ℕ → StorageFileConfig)) (i : ℕ)
    (files : List MiFile) {hs : List FileHandle}
    → open_files open_disk configs i files ≡ some hs
    → Same files hs
unfolding open_files
open_files-Same open_disk configs i [] h = subst (Same []) (some_inj h) tt
open_files-Same open_disk configs i (f ∷ fs) h =
    open_round (config_of configs i).mode (open_disk i) (open_files open_disk configs (i + 1) fs) f
      fs _ refl refl (λ t e. open_files-Same open_disk configs (i + 1) fs e) h

-- Each handle stands behind the lengths of those before it.
abbrev Tiled : ℕ → List FileHandle → Type 0
Tiled offset [] = Unit {0}
Tiled offset (h ∷ hs) = (h.offset ≡ offset) × Tiled (offset + h.length) hs

file_at-Tiled :
    (offset : ℕ) (hs : List FileHandle) (k : ℕ)
    → Tiled offset hs
    → k < length hs
    → offset ≤ (file_at hs k).offset
file_at-Tiled offset [] k t lt = elim lt [ ]
file_at-Tiled offset (h ∷ hs) zero t lt = omega (arith, t.0)
file_at-Tiled offset (h ∷ hs) (suc k) t lt =
    omega (arith, file_at-Tiled (offset + h.length) hs k t.1 (omega arith))

Tiled-Laid : (offset : ℕ) (hs : List FileHandle) → Tiled offset hs → Laid hs
Tiled-Laid offset [] t i j lt inside = elim inside [ ]
Tiled-Laid offset (h ∷ hs) t i zero lt inside = elim lt [ ]
Tiled-Laid offset (h ∷ hs) t zero (suc j) lt inside =
    omega (arith, t.0, file_at-Tiled (offset + h.length) hs j t.1 (omega arith))
Tiled-Laid offset (h ∷ hs) t (suc i) (suc j) lt inside =
    Tiled-Laid (offset + h.length) hs t.1 i j (omega arith) (omega arith)

-- No entry of the list of files was passed over.
abbrev pub AllNamed : List MiFile → Type 0
AllNamed [] = Unit {0}
AllNamed (f ∷ fs) = (f.path ≢ []) × AllNamed fs

Same-Tiled :
    (offset : ℕ) (files : List MiFile) (hs : List FileHandle)
    → AllNamed files
    → Placed offset files
    → Same files hs
    → Tiled offset hs
Same-Tiled offset [] [] named placed same = tt
Same-Tiled offset [] (h ∷ hs) named placed same = elim same [ ]
Same-Tiled offset (f ∷ fs) [] named placed same = elim same [ ]
Same-Tiled offset (f ∷ fs) (h ∷ hs) named (inl e, rest) same =
    absurd (named.0 (ap (λ (g : MiFile). g.path) e))
Same-Tiled offset (f ∷ fs) (h ∷ hs) named (inr here, rest) (at, len, same) =
    (at ∙ here.0, rw len (Same-Tiled (offset + f.length) fs hs named.1 rest same))

--
-- The files that storage_open_ex opens for a parsed metainfo, none of whose entries was passed
-- over, are laid out in order without overlap, which is what the binary search of find_file needs.
pub storage_open_ex-Laid :
    (ops : MetaOps) (buf : Bytes) (calloc : Bool) (open_disk : ℕ → Option Bytes)
    (configs : Option (ℕ → StorageFileConfig)) {mi : Metainfo} {hs : List FileHandle}
    → metainfo_parse ops buf ≡ some mi
    → AllNamed mi.files
    → storage_open_ex calloc open_disk mi configs ≡ some hs
    → Laid hs
unfolding storage_open_ex
storage_open_ex-Laid ops buf true open_disk configs {mi} {hs} parsed named opened =
    let placed = (metainfo_parse-IsWellFormed ops buf parsed).layout.placed in
    Tiled-Laid 0 hs
      (Same-Tiled 0 mi.files hs named placed (open_files-Same open_disk configs 0 mi.files opened))
storage_open_ex-Laid ops buf false open_disk configs parsed named opened = cc
