-- ===== src/Trace/Savez.antt =====
-- What the trace reader finds at an output after `np.savez(output, …)`, in the scripts that write a
-- trace. A path is the text that it prints as.
use mem_tier_gds.Base.{
  ◌-◌, ◌==◌, ◌&&◌, Bool, false, not, [], ◌∷◌, ◌++◌, if◌then◌else◌, length, take, Result, ok,
}
use mem_tier_gds.Base.Text.{Text, codes, ends_with}
use mem_tier_gds.Trace.{Source, other_suffix}

-- The path at which `np.savez` leaves the file.
unfoldable pub npz_path : Text → Text
unfolding ends_with
npz_path output = if ends_with output (codes ".npz") then output else output ++ codes ".npz"

-- Whether something stands in the last part of a path, which a suffix follows.
unfoldable pub has_stem : Text → Bool
has_stem [] = false
has_stem (c ∷ []) = not (c == b'/')
has_stem (c ∷ d ∷ path) = has_stem (d ∷ path)

-- `output.suffix == ".npz"`: a name that is ".npz" as a whole has no suffix.
unfoldable pub is_npz : Text → Bool
unfolding ends_with has_stem
is_npz output = ends_with output (codes ".npz") && has_stem (take (length output - 4) output)

-- What is opened as `args.output` once the file is saved; `before` is what stands at another path.
unfoldable pub found_after : Text → Result Source → Source → Result Source
unfolding is_npz
found_after output before saved =
    if is_npz output
    then ok saved
    else if ends_with output (codes ".npz")
    then ok other_suffix
    else before
