-- ===== src/Ext2/Tests/Gaps.antt =====
-- Removed entries and their restoration on blocks of a few entries.
use csc369_uoft.Base.{ℕ, ◌-◌, ◌≡◌, refl, some, List, [], ◌∷◌, leb, ◌==◌, if◌then◌else◌, arith}
use csc369_uoft.Base.Int.{pos, negsuc}
use csc369_uoft.Ext2.Bytes.{load16, load32, load_text, same_text}
use csc369_uoft.Ext2.Entries.{DirEntry, load_entry}
use csc369_uoft.Ext2.Entries.Layout.{IsBlock}
use csc369_uoft.Ext2.Gaps.{check_with_gaps}
use csc369_uoft.Ext2.Gaps.Missed.{check_with_gaps-AllTight}
use csc369_uoft.Ext2.Gaps.Restore.{rm_from_directory-check_with_gaps}
use csc369_uoft.Ext2.Paths.{tokens, last_of, begin_token, extend}
use csc369_uoft.Ext2.Remove.{rm_from_directory}
use csc369_uoft.Ext2.Remove.Merge.{SameOutside}
use csc369_uoft.Ext2.Sample.{nth, entry}

-- A block of three files, "f", "g" and "h".
abbrev files : ℕ → ℕ
files j =
    if leb 11264 j
    then nth
        (13 ∷ 0 ∷ 0 ∷ 0 ∷ 12 ∷ 0 ∷ 1 ∷ 1 ∷ 102 ∷ 0 ∷ 0 ∷ 0 ∷ 14 ∷ 0 ∷ 0 ∷ 0 ∷ 12 ∷ 0 ∷ 1 ∷ 1 ∷ 103
          ∷ 0 ∷ 0 ∷ 0 ∷ 15 ∷ 0 ∷ 0 ∷ 0 ∷ 232 ∷ 3 ∷ 1 ∷ 1 ∷ 104 ∷ [])
        (j - 11264)
    else 0

abbrev three : List DirEntry
three = entry 13 12 1 (102 ∷ []) 1 ∷ entry 14 12 1 (103 ∷ []) 1 ∷ entry 15 1000 1 (104 ∷ []) 1 ∷ []

files-IsBlock : IsBlock files 11 three
unfolding load_entry load16 load32 load_text
files-IsBlock = (refl, omega arith, (refl, omega arith, (refl, omega arith, refl)))

-- "/a/g"
abbrev path_g : List ℕ
path_g = 47 ∷ 97 ∷ 47 ∷ 103 ∷ []

path_g-last : last_of (tokens path_g) ≡ some (103 ∷ [])
unfolding tokens last_of begin_token extend
path_g-last = refl

rm_from_directory-check_with_gaps_example :
    (m' : ℕ → ℕ) × (rm_from_directory files 11 path_g ≡ some (pos 1, m'))
    × (m'' : ℕ → ℕ) × (check_with_gaps m' 11 path_g ≡ some (negsuc 0, m''))
    × IsBlock m'' 11 three
    × SameOutside 11264 12288 files m''
unfolding same_text
rm_from_directory-check_with_gaps_example =
    rm_from_directory-check_with_gaps files 11 path_g (103 ∷ []) (entry 13 12 1 (102 ∷ []) 1)
      (entry 14 12 1 (103 ∷ []) 1) (entry 15 1000 1 (104 ∷ []) 1) [] path_g-last (omega arith)
      files-IsBlock refl refl refl refl refl

-- The same block after the removal of "h", whose bytes are still behind the entry of "g".
abbrev without_h : ℕ → ℕ
without_h j = if j == 11280 then 244 else if j == 11281 then 3 else files j

abbrev two : List DirEntry
two = entry 13 12 1 (102 ∷ []) 1 ∷ entry 14 1012 1 (103 ∷ []) 1 ∷ []

without_h-IsBlock : IsBlock without_h 11 two
unfolding load_entry load16 load32 load_text
without_h-IsBlock = (refl, omega arith, (refl, omega arith, refl))

-- "/a/h"
abbrev path_h : List ℕ
path_h = 47 ∷ 97 ∷ 47 ∷ 104 ∷ []

path_h-last : last_of (tokens path_h) ≡ some (104 ∷ [])
unfolding tokens last_of begin_token extend
path_h-last = refl

check_with_gaps-AllTight_example : check_with_gaps without_h 11 path_h ≡ some (pos 0, without_h)
unfolding same_text
check_with_gaps-AllTight_example =
    check_with_gaps-AllTight without_h 11 path_h (104 ∷ []) (entry 13 12 1 (102 ∷ []) 1)
      (entry 14 1012 1 (103 ∷ []) 1) [] path_h-last (omega arith) without_h-IsBlock (refl, tt) refl
