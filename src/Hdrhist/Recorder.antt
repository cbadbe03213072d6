-- ===== src/Hdrhist/Recorder.antt =====
-- v1/ao/internal/hdrhist/hist.go: the recorder, whose histogram is taken at intervals. The
-- instants that `time.Now` returns are arguments.
use package.appoptics_apm_go.Base.{ℕ, Bool, List, some, ltb, if◌then◌else◌, length, take, replicate}
use package.appoptics_apm_go.Hdrhist.Hist.{
  Hist, Config, Result, returned, init, clear, record_n, record_corrected, default_config, ◌>>=◌,
}

pub record Recorder : Type 0 where
  pub h : Hist

unfoldable pub set_start_time : Hist → ℕ → Hist
set_start_time h t = record h { start_time = some t }

unfoldable pub set_end_time : Hist → ℕ → Hist
set_end_time h t = record h { end_time = some t }

unfoldable pub set_auto_resize : Hist → Bool → Hist
set_auto_resize h b = record h { cfg = record h.cfg { auto_resize = b } }

module _ (floor_log2 : ℕ → ℕ) where
  unfoldable pub recorder_init : Config → ℕ → Result Recorder
  recorder_init cfg now = do h ← init floor_log2 cfg; returned (record { h = set_start_time h now })

  unfoldable pub new_recorder_with_config : Config → ℕ → Result Recorder
  new_recorder_with_config cfg now = recorder_init cfg now

  unfoldable pub new_recorder : ℕ → ℕ → Result Recorder
  new_recorder sig_figs now = new_recorder_with_config (default_config sig_figs) now

unfoldable pub recorder_record_n : Recorder → ℕ → ℕ → Result Recorder
recorder_record_n r v count = do h ← record_n r.h v count; returned (record { h = h })

unfoldable pub recorder_record_corrected : ℕ → Recorder → ℕ → ℕ → Result Recorder
recorder_record_corrected fuel r v interval = do
  h ← record_corrected fuel r.h v interval
  returned (record { h = h })

unfoldable pub recorder_clear : Recorder → Recorder
recorder_clear r = record { h = clear r.h }

-- The counters that the recorder goes on with: those of the histogram it is given, up to their
-- capacity, where they are enough.
unfoldable pub reused_counts : List ℕ → ℕ → List ℕ
reused_counts backing len = if ltb (length backing) len then replicate len 0 else take len backing

-- `backing` is the array behind `h.b.counts`, empty where `h` is nil. The first component is
-- what `h` holds on return.
unfoldable pub interval_hist : Recorder → List ℕ → ℕ → Hist × Recorder
interval_hist r backing now =
    let counts = reused_counts backing (length r.h.b.counts) in
    (
      set_end_time r.h now,
      record {
        h = set_start_time (clear (record r.h { b = record r.h.b { counts = counts } })) now;
      },
    )
