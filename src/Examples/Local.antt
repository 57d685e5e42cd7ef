-- ===== src/Examples/Local.antt =====
-- The theorem on a run with the repository's own parsing and chunking, at the waiting text file.

use evidencedesk.Worker.Run.{process_document}
use evidencedesk.Worker.Local.{local, local_run-IsSettled}
use evidencedesk.Worker.Settled.{IsSettled}
use evidencedesk.Processing.Pdf.{Fate}
use evidencedesk.Examples.{pipeline, quiet, waiting}
use evidencedesk.Examples.Parsing.{limits, reader}

local_run-IsSettled_example :
    IsSettled Fate.answers quiet 5000
      (process_document (local reader limits 5000 pipeline) quiet 7 8 waiting).0
local_run-IsSettled_example = local_run-IsSettled reader limits 5000 pipeline quiet 7 8 waiting
