-- ===== src/Ingestion/Versioning/Tracked.antt =====
-- app/ingestion/versioning.py: `TRACKED_FIELDS` names every field of a record that a version compares.
use mathlib.Core.List.{Memᴰ}
use tenderbase_api.Prelude.{refl}
use tenderbase_api.Ingestion.Record.{Field}
use tenderbase_api.Ingestion.Versioning.{tracked_fields}

-- The list of tracked fields leaves out none of them.
pub tracked_fields-mem : (f : Field) → Memᴰ f tracked_fields
tracked_fields-mem Field.reference_number = Memᴰ.head refl
tracked_fields-mem Field.title = Memᴰ.tail (Memᴰ.head refl)
tracked_fields-mem Field.description = Memᴰ.tail (Memᴰ.tail (Memᴰ.head refl))
tracked_fields-mem Field.procurement_type = Memᴰ.tail (Memᴰ.tail (Memᴰ.tail (Memᴰ.head refl)))
tracked_fields-mem Field.status = Memᴰ.tail (Memᴰ.tail (Memᴰ.tail (Memᴰ.tail (Memᴰ.head refl))))
tracked_fields-mem Field.organization =
    Memᴰ.tail (Memᴰ.tail (Memᴰ.tail (Memᴰ.tail (Memᴰ.tail (Memᴰ.head refl)))))
tracked_fields-mem Field.published_at =
    Memᴰ.tail (Memᴰ.tail (Memᴰ.tail (Memᴰ.tail (Memᴰ.tail (Memᴰ.tail (Memᴰ.head refl))))))
tracked_fields-mem Field.closing_at =
    Memᴰ.tail
      (Memᴰ.tail (Memᴰ.tail (Memᴰ.tail (Memᴰ.tail (Memᴰ.tail (Memᴰ.tail (Memᴰ.head refl)))))))
tracked_fields-mem Field.estimated_value = Memᴰ.tail (
    Memᴰ.tail
      (Memᴰ.tail (Memᴰ.tail (Memᴰ.tail (Memᴰ.tail (Memᴰ.tail (Memᴰ.tail (Memᴰ.head refl))))))))
tracked_fields-mem Field.currency = Memᴰ.tail (
    Memᴰ.tail (
      Memᴰ.tail
        (Memᴰ.tail (Memᴰ.tail (Memᴰ.tail (Memᴰ.tail (Memᴰ.tail (Memᴰ.tail (Memᴰ.head refl)))))))))
tracked_fields-mem Field.submission_method = Memᴰ.tail (
    Memᴰ.tail (
      Memᴰ.tail (
        Memᴰ.tail (
          Memᴰ.tail (Memᴰ.tail (Memᴰ.tail (Memᴰ.tail (Memᴰ.tail (Memᴰ.tail (Memᴰ.head refl))))))))))
tracked_fields-mem Field.submission_url = Memᴰ.tail (
    Memᴰ.tail (
      Memᴰ.tail (
        Memᴰ.tail (
          Memᴰ.tail (
            Memᴰ.tail
              (Memᴰ.tail (Memᴰ.tail (Memᴰ.tail (Memᴰ.tail (Memᴰ.tail (Memᴰ.head refl)))))))))))
tracked_fields-mem Field.submission_address = Memᴰ.tail (
    Memᴰ.tail (
      Memᴰ.tail (
        Memᴰ.tail (
          Memᴰ.tail (
            Memᴰ.tail (
              Memᴰ.tail
                (Memᴰ.tail (Memᴰ.tail (Memᴰ.tail (Memᴰ.tail (Memᴰ.tail (Memᴰ.head refl))))))))))))
tracked_fields-mem Field.briefing_required = Memᴰ.tail (
    Memᴰ.tail (
      Memᴰ.tail (
        Memᴰ.tail (
          Memᴰ.tail (
            Memᴰ.tail (
              Memᴰ.tail (
                Memᴰ.tail (
                  Memᴰ.tail (Memᴰ.tail (Memᴰ.tail (Memᴰ.tail (Memᴰ.tail (Memᴰ.head refl)))))))))))))
tracked_fields-mem Field.briefing_compulsory = Memᴰ.tail (
    Memᴰ.tail (
      Memᴰ.tail (
        Memᴰ.tail (
          Memᴰ.tail (
            Memᴰ.tail (
              Memᴰ.tail (
                Memᴰ.tail (
                  Memᴰ.tail (
                    Memᴰ.tail
                      (Memᴰ.tail (Memᴰ.tail (Memᴰ.tail (Memᴰ.tail (Memᴰ.head refl))))))))))))))
tracked_fields-mem Field.briefing_date = Memᴰ.tail (
    Memᴰ.tail (
      Memᴰ.tail (
        Memᴰ.tail (
          Memᴰ.tail (
            Memᴰ.tail (
              Memᴰ.tail (
                Memᴰ.tail (
                  Memᴰ.tail (
                    Memᴰ.tail (
                      Memᴰ.tail
                        (Memᴰ.tail (Memᴰ.tail (Memᴰ.tail (Memᴰ.tail (Memᴰ.head refl)))))))))))))))
tracked_fields-mem Field.briefing_location = Memᴰ.tail (
    Memᴰ.tail (
      Memᴰ.tail (
        Memᴰ.tail (
          Memᴰ.tail (
            Memᴰ.tail (
              Memᴰ.tail (
                Memᴰ.tail (
                  Memᴰ.tail (
                    Memᴰ.tail (
                      Memᴰ.tail (
                        Memᴰ.tail (
                          Memᴰ.tail (Memᴰ.tail (Memᴰ.tail (Memᴰ.tail (Memᴰ.head refl))))))))))))))))
tracked_fields-mem Field.source_url = Memᴰ.tail (
    Memᴰ.tail (
      Memᴰ.tail (
        Memᴰ.tail (
          Memᴰ.tail (
            Memᴰ.tail (
              Memᴰ.tail (
                Memᴰ.tail (
                  Memᴰ.tail (
                    Memᴰ.tail (
                      Memᴰ.tail (
                        Memᴰ.tail (
                          Memᴰ.tail (
                            Memᴰ.tail
                              (Memᴰ.tail (Memᴰ.tail (Memᴰ.tail (Memᴰ.head refl)))))))))))))))))
tracked_fields-mem Field.canonical_url = Memᴰ.tail (
    Memᴰ.tail (
      Memᴰ.tail (
        Memᴰ.tail (
          Memᴰ.tail (
            Memᴰ.tail (
              Memᴰ.tail (
                Memᴰ.tail (
                  Memᴰ.tail (
                    Memᴰ.tail (
                      Memᴰ.tail (
                        Memᴰ.tail (
                          Memᴰ.tail (
                            Memᴰ.tail (
                              Memᴰ.tail
                                (Memᴰ.tail (Memᴰ.tail (Memᴰ.tail (Memᴰ.head refl))))))))))))))))))
