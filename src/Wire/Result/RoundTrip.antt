-- ===== src/Wire/Result/RoundTrip.antt =====
-- Results and responses are read back as they were written.
use sa_excutor.Common.{
  ℕ, ◌<◌, ◌≤◌, ◌≡◌, sym, List, [], ◌∷◌, Option, none, some, length, All, append_nil, done,
}
use sa_excutor.Common.Map.{or_else}
use sa_excutor.Types.{SaceResult, SaceStatusResponse, extra_bufer_len, u32_mod}
use sa_excutor.Types.Command.{SaceResultType}
use sa_excutor.Wire.Laws.{Item, ParcelApi, Fits, IsLawful, size_of}
use sa_excutor.Wire.Rules.{◌>>=◌, pure, Reads, Reads-next, Reads-pure, Reads-bind, Reads-map}
use sa_excutor.Wire.Extra.{Reads-extra}
use sa_excutor.Wire.Size.{read-write_all}
use sa_excutor.Wire.Result.{
  base_normal, base_response, status_code, type_code, response_status_code, response_type_code,
  enumerator, result_statuses, result_types, response_statuses, response_types, write_result,
  write_response, read_header, read_enum, read_fd, read_result, read_response,
}
use sa_excutor.Wire.Result.Layout.{
  fd_items, result_items, response_items, carried_fd, enumerator-status, enumerator-type,
  enumerator-response_status, enumerator-response_type, write_result_lem, write_response_lem,
}

module _ {api : ParcelApi} {laws : IsLawful api} where
  pub Reads-header :
      (n type label : ℕ)
      → Reads api laws
          (read_header api)
          (Item.u32 n ∷ Item.byte type ∷ Item.u64 label ∷ [])
          (record { len = n; type = type; label = label })
  unfolding read_header
  Reads-header n type label = Reads-next _ _ _ _ _ _ (laws.uint32_lem n) (
      Reads-next _ _ _ _ _ _ (laws.byte_lem type)
        (Reads-next _ _ _ _ _ _ (laws.uint64_lem label) (Reads-pure _)))

  Reads-enum :
      {A : Type 0} (values : List A) (n : ℕ) (value : A)
      → enumerator values n ≡ some value
      → Reads api laws (read_enum api values) (Item.byte n ∷ []) value
  unfolding read_enum
  Reads-enum values n value h = Reads-next _ _ _ _ _ _ (laws.byte_lem n) (rw h (Reads-pure value))

  Reads-fd :
      {A : Type 0} (unset : ℕ) (t : SaceResultType) (fd : Option ℕ) (g : Option ℕ → A)
      → Reads api laws
          (read_fd api t >>= λ fd. pure (g fd))
          (fd_items t (or_else unset fd))
          (g (carried_fd unset t fd))
  unfolding read_fd
  Reads-fd unset SaceResultType.fd fd g =
      Reads-map _ g _ _
        (Reads-next _ _ _ _ _ _ (laws.descriptor_lem (or_else unset fd)) (Reads-pure _))
  Reads-fd unset SaceResultType.nothing fd g = Reads-map _ g _ _ (Reads-pure none)
  Reads-fd unset SaceResultType.start fd g = Reads-map _ g _ _ (Reads-pure none)
  Reads-fd unset SaceResultType.close fd g = Reads-map _ g _ _ (Reads-pure none)
  Reads-fd unset SaceResultType.extra fd g = Reads-map _ g _ _ (Reads-pure none)
  Reads-fd unset SaceResultType.label fd g = Reads-map _ g _ _ (Reads-pure none)

  pub Reads-result :
      (unset n : ℕ) (r : SaceResult)
      → length r.result_extra ≤ extra_bufer_len
      → Reads api laws (read_result api) (Item.u32 n ∷ result_items unset r) (
        record { len = n; type = base_normal; label = r.label },
        record r { result_fd = carried_fd unset r.result_type r.result_fd },
      )
  unfolding read_result
  Reads-result unset n r fits =
      Reads-bind _ _ (Item.u32 n ∷ Item.byte base_normal ∷ Item.u64 r.label ∷ []) _ _ _
        (Reads-header n base_normal r.label)
        (Reads-next _ _ _ _ _ _ (laws.uint32_lem r.sequence) (
          Reads-next _ _ _ _ _ _ (laws.text_lem r.name) (
            Reads-bind _ _ (Item.byte (type_code r.result_type) ∷ []) _ _ _
              (Reads-enum result_types _ _ (enumerator-type r.result_type))
              (Reads-bind _ _ (Item.byte (status_code r.result_status) ∷ []) _ _ _
                (Reads-enum result_statuses _ _ (enumerator-status r.result_status))
                (Reads-next _ _ _ _ _ _ (laws.uint32_lem (length r.result_extra)) (
                  Reads-bind _ _ (Item.raw r.result_extra ∷ []) _ _ _
                    (Reads-extra r.result_extra fits)
                    (Reads-fd unset r.result_type r.result_fd _)))))))

  pub Reads-response :
      (n : ℕ) (r : SaceStatusResponse)
      → length r.extra ≤ extra_bufer_len
      → Reads api laws
          (read_response api)
          (Item.u32 n ∷ response_items r)
          (record { len = n; type = base_response; label = r.label }, r)
  unfolding read_response
  Reads-response n r fits =
      Reads-bind _ _ (Item.u32 n ∷ Item.byte base_response ∷ Item.u64 r.label ∷ []) _ _ _
        (Reads-header n base_response r.label)
        (Reads-next _ _ _ _ _ _ (laws.text_lem r.name) (
          Reads-bind _ _ (Item.byte (response_type_code r.type) ∷ []) _ _ _
            (Reads-enum response_types _ _ (enumerator-response_type r.type))
            (Reads-bind _ _ (Item.byte (response_status_code r.status) ∷ []) _ _ _
              (Reads-enum response_statuses _ _ (enumerator-response_status r.status))
              (Reads-next _ _ _ _ _ _ (laws.uint32_lem (length r.extra)) (
                Reads-bind _ _ (Item.raw r.extra ∷ []) (_) _ _ (Reads-extra r.extra fits)
                  (Reads-pure _))))))

module _ (api : ParcelApi) (laws : IsLawful api) where
  -- A result whose values fit their widths is read back as it was written, with the size of the
  -- parcel in its header; a descriptor comes back for a result of type FD only, and for such a
  -- result that was given no descriptor it is what its memory holds.
  pub read-write_result :
      (unset : ℕ) (r : SaceResult) (p : api.Parcel)
      → length r.result_extra ≤ extra_bufer_len
      → All (Fits api) (Item.u32 0 ∷ result_items unset r)
      → size_of laws.width (Item.u32 0 ∷ result_items unset r) < u32_mod
      → laws.view p ≡ ([], [])
      → (q : api.Parcel) × (read_result api (api.set_data_position 0 (write_result api unset r p))
          ≡ done (
            (
              record {
                len = api.data_size (write_result api unset r p);
                type = base_normal;
                label = r.label;
              },
              record r { result_fd = carried_fd unset r.result_type r.result_fd },
            ),
            q,
          ))
  read-write_result unset r p fits fit small e = rw (write_result_lem api laws unset r p) (
      read-write_all api laws (read_result api) (result_items unset r) (result_items unset r) []
        (λ n. (
          record { len = n; type = base_normal; label = r.label },
          record r { result_fd = carried_fd unset r.result_type r.result_fd },
        ))
        p (λ n. Reads-result unset n r fits) (sym (append_nil (result_items unset r))) fit small e)

  -- A response whose values fit their widths is read back as it was written.
  pub read-write_response :
      (r : SaceStatusResponse) (p : api.Parcel)
      → length r.extra ≤ extra_bufer_len
      → All (Fits api) (Item.u32 0 ∷ response_items r)
      → size_of laws.width (Item.u32 0 ∷ response_items r) < u32_mod
      → laws.view p ≡ ([], [])
      → (q : api.Parcel) × (read_response api (api.set_data_position 0 (write_response api r p))
          ≡ done (
            (
              record {
                len = api.data_size (write_response api r p);
                type = base_response;
                label = r.label;
              },
              r,
            ),
            q,
          ))
  read-write_response r p fits fit small e = rw (write_response_lem api laws r p) (
      read-write_all api laws (read_response api) (response_items r) (response_items r) []
        (λ n. (record { len = n; type = base_response; label = r.label }, r)) p
        (λ n. Reads-response n r fits) (sym (append_nil (response_items r))) fit small e)
