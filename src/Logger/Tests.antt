-- ===== src/Logger/Tests.antt =====
-- A system that writes to a list of lines and whose clock counts them, and the theorem at it.
use http_library.Prelude.{ℕ, suc, zero, ◌≡◌, refl, true, some, List, [], ◌∷◌, ◌++◌, codes, length}
use http_library.Logger.{LogSystem, Logger, to_file, log_level_name}
use http_library.Logger.Lines.{LogRequest, message_logged, level_changed, lines_of, write_all}

abbrev lines_system : LogSystem (List (List ℕ))
lines_system = record {
  fopen = λ filename. some 5;
  fclose = λ file. true;
  fprintf = λ file line w. w ++ (line ∷ []);
  time_str = λ w. elim (length w) [ zero ↦ codes "10:00" | suc n ↦ codes "10:01" ];
  thread = λ w. codes "[tid=1]";
}

abbrev to_log : Logger (List (List ℕ))
to_log = record { callback_func = some to_file; log_file = some 5; log_level = 2 }

abbrev requests : List LogRequest
requests =
    message_logged 2 (codes "a")
    ∷ level_changed 1
    ∷ message_logged 2 (codes "b")
    ∷ message_logged 0 (codes "c")
    ∷ []

lines_run :
    write_all lines_system 5 (lines_of lines_system requests 2) []
    ≡ codes "10:00 [tid=1] INFO a\n" ∷ codes "10:01 [tid=1] ERROR c\n" ∷ []
unfolding lines_of log_level_name
lines_run = refl
