-- ===== src/DeepCopy/Values.antt =====
-- What each type under apis/ stands for, once every address has been followed: what is no address,
-- and the values of the parts.
use provider_stackrox.Base.{String, Option, List}
use provider_stackrox.Memory.Foreign.{MemTypes}
use provider_stackrox.Memory.Cluster.{ClusterParameters, ClusterObservation}
use provider_stackrox.Memory.InitBundle.{ImpactedCluster, User, InitBundleParameters}

module _ (T : MemTypes) where
  abbrev pub ClusterParametersValue : Type 0
  ClusterParametersValue = ClusterParameters × ((Option (String → Option String)))

  abbrev pub ClusterObservationValue : Type 0
  ClusterObservationValue = ClusterObservation × ((Option (String → Option String)))

  abbrev pub ClusterSpecValue : Type 0
  ClusterSpecValue = T.Value × ((ClusterParametersValue))

  abbrev pub ClusterStatusValue : Type 0
  ClusterStatusValue = T.Value × ((ClusterObservationValue))

  abbrev pub ClusterValue : Type 0
  ClusterValue = T.TypeMeta × (T.Value × ((ClusterSpecValue) × ((ClusterStatusValue))))

  abbrev pub ClusterListValue : Type 0
  ClusterListValue = T.TypeMeta × (T.Value × ((Option (List (ClusterValue)))))

  abbrev pub UserValue : Type 0
  UserValue = User × ((Option (String → Option String)))

  abbrev pub InitBundleObservationValue : Type 0
  InitBundleObservationValue =
      String × String × (T.Value × ((UserValue) × (T.Value × ((Option (List ImpactedCluster))))))

  abbrev pub InitBundleSpecValue : Type 0
  InitBundleSpecValue = InitBundleParameters × (T.Value)

  abbrev pub InitBundleStatusValue : Type 0
  InitBundleStatusValue = T.Value × ((InitBundleObservationValue))

  abbrev pub InitBundleValue : Type 0
  InitBundleValue = T.TypeMeta × (T.Value × ((InitBundleSpecValue) × ((InitBundleStatusValue))))

  abbrev pub InitBundleListValue : Type 0
  InitBundleListValue = T.TypeMeta × (T.Value × ((Option (List (InitBundleValue)))))

  abbrev pub ProviderCredentialsValue : Type 0
  ProviderCredentialsValue = T.CredentialsSource × (T.Value)

  abbrev pub ProviderConfigSpecValue : Type 0
  ProviderConfigSpecValue = String × ((ProviderCredentialsValue))

  abbrev pub ProviderConfigStatusValue : Type 0
  ProviderConfigStatusValue = T.Value

  abbrev pub ProviderConfigValue : Type 0
  ProviderConfigValue =
      T.TypeMeta × (T.Value × ((ProviderConfigSpecValue) × ((ProviderConfigStatusValue))))

  abbrev pub ProviderConfigListValue : Type 0
  ProviderConfigListValue = T.TypeMeta × (T.Value × ((Option (List (ProviderConfigValue)))))

  abbrev pub ProviderConfigUsageValue : Type 0
  ProviderConfigUsageValue = T.TypeMeta × (T.Value × (T.Value))

  abbrev pub ProviderConfigUsageListValue : Type 0
  ProviderConfigUsageListValue =
      T.TypeMeta × (T.Value × ((Option (List (ProviderConfigUsageValue)))))

  abbrev pub StoreConfigSpecValue : Type 0
  StoreConfigSpecValue = T.Value

  abbrev pub StoreConfigStatusValue : Type 0
  StoreConfigStatusValue = T.Value

  abbrev pub StoreConfigValue : Type 0
  StoreConfigValue = T.TypeMeta × (T.Value × ((StoreConfigSpecValue) × ((StoreConfigStatusValue))))

  abbrev pub StoreConfigListValue : Type 0
  StoreConfigListValue = T.TypeMeta × (T.Value × ((Option (List (StoreConfigValue)))))
