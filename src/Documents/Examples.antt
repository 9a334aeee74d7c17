-- ===== src/Documents/Examples.antt =====
-- The versions of a document.
use orchestract.Common.{refl, none, [], text, strip}
use orchestract.Documents.{Document, Upload, create_document, add_version}
use orchestract.Documents.Versions.{Kept, created, uploaded, IsNumbered, Kept-IsNumbered}

abbrev scan : Upload
scan = record {
  storage_connection_id = 1;
  storage_key = text "k";
  original_filename = text "scan.pdf";
  content_type = text "application/pdf";
  size_bytes = 10;
  uploaded_by = text "eva";
  notes = none;
  source_provider = none;
  source_external_id = none;
}

abbrev empty_document : Document
empty_document = record {
  id = none;
  name = text "Offer";
  current_version_no = 0;
  summary = none;
  summary_generated_at = none;
  updated_at = none;
  versions = [];
}

abbrev uploaded_once : Document
uploaded_once = (add_version scan 5 empty_document).1

uploaded_once-Kept : Kept uploaded_once
unfolding create_document strip
uploaded_once-Kept = uploaded scan 5 (created (text "Offer ") {d = empty_document} refl) refl

Kept-IsNumbered_example : IsNumbered uploaded_once
Kept-IsNumbered_example = Kept-IsNumbered uploaded_once-Kept
