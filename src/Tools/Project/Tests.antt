-- ===== src/Tools/Project/Tests.antt =====
-- The files of the project at concrete inputs.
use esp32_fx.Files.{ReadEvent, interrupted, read_failed, chunk_ready}
use esp32_fx.Tools.{file_limit}
use esp32_fx.Tools.Project.{
  reply, denied_reply, read_rest, read_reply, read_project_file, write_interrupted, wrote, Project,
  WriteAnswers, replace_project_file,
}
use esp32_fx.Tools.Project.Laws.{
  IsWhole, read_project_file-IsWhole, IsAtomic, replace_project_file-IsAtomic,
}
use esp32_fx.Prelude.{
  ℕ, ◌≡◌, refl, pos, true, none, List, [], ◌∷◌, ◌++◌, replicate, min, codes, arith,
}

abbrev buffer : List ℕ
buffer = replicate 32 0

abbrev text : List ℕ
text = codes "echo 42\n"

abbrev pieces : List ReadEvent
pieces = interrupted ∷ chunk_ready (codes "echo ") ∷ chunk_ready (codes "42\n") ∷ []

read_project_file-IsWhole_example :
    IsWhole (min 32 file_limit) text (read_project_file buffer 32 pieces)
read_project_file-IsWhole_example =
    read_project_file-IsWhole buffer 32 pieces text
      (omega arith, (codes "42\n", refl, (omega arith, ([], refl, refl)))) (omega arith)

-- A file that cannot be read to its end: the reply has the length of the refusal, but the first bytes of the
-- buffer are the file's.
read_broken :
    read_project_file buffer 32 (chunk_ready (codes "echo ") ∷ read_failed ∷ []) ≡ record {
      result = pos 27;
      status = 1;
      out = codes "echo denied or unavailable\n" ++ replicate 5 0;
    }
unfolding read_project_file read_rest read_reply denied_reply reply
read_broken = refl

abbrev project : Project
project = record { battery = codes "old\n"; temporary = none }

abbrev answers : WriteAnswers
answers = record {
  creates = true;
  writes = wrote 3 ∷ write_interrupted ∷ [];
  chmods = true;
  syncs = true;
  closes = true;
  renames = true;
  unlinks = true;
}

replace_project_file-IsAtomic_example :
    IsAtomic true text project (replace_project_file answers buffer 32 text project)
replace_project_file-IsAtomic_example = replace_project_file-IsAtomic answers buffer 32 text project
